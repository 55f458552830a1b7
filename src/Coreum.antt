-- ===== src/Coreum.antt =====
-- The Coreum token factory, src/multi_test/modules/token_factory_coreum.rs: fungible tokens, whose
-- denom is `{subunit}-{issuer}`, non-fungible tokens in classes, and the queries.
mod Types
pub mod Fungible
pub mod Nft
pub mod Handle
pub mod Invariant
pub mod Authority
pub mod Permanence
pub mod Supply
pub mod Count
pub mod Answers
pub mod Query
pub use Types.*
