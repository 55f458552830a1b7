-- ===== src/Osmosis.antt =====
-- The helpers for Osmosis: src/osmosis/utils.rs, src/osmosis/robot.rs and src/osmosis/test_pool.rs.
mod Types
pub mod LpTokens
pub mod Robot
pub mod TestPool
pub use Types.*
