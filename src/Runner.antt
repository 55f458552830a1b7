-- ===== src/Runner.antt =====
-- The runner on the multi-test app, src/multi_test/runner.rs: the conversion of protobuf messages,
-- the execution of messages and the making of accounts.
mod Types
pub mod Convert
pub mod Execute
pub mod Accounts
pub mod Time
pub mod Build
pub use Types.*
