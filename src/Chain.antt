-- ===== src/Chain.antt =====
-- What the stargate modules share with the chain simulator: coins, events and responses, errors,
-- the state and error monad of a handler, and the parts of the simulator and of the storage that
-- are not in this repository, as interfaces.
mod Monad
mod Types
mod Storage
mod Routing
mod Laws
pub mod Seq
mod Supply
mod Histories
mod Entries
unfoldable pub use Monad.*
pub use Types.*
pub use Storage.*
pub use Routing.*
pub use Laws.*
pub use Entries.*
pub use Supply.*
unfoldable pub use Histories.*
