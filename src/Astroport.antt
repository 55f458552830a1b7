-- ===== src/Astroport.antt =====
-- Deploying the astroport contracts and working with their pairs, src/astroport/utils.rs and
-- src/astroport/robot.rs.
mod Types
pub mod Setup
pub mod Assets
pub mod Pairs
pub mod Robot
pub mod Artifacts
pub mod Astro
pub use Types.*
