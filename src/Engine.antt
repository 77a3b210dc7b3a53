-- ===== src/Engine.antt =====
-- crates/privacy_proxy_core/src/engine.rs: `Patterns`, `Engine` and the functions of the crate.
pub mod Patterns
pub mod Replace
pub mod Ibans
pub mod Text
pub mod Walk
pub mod Api
pub mod Total
pub mod Masking
pub mod Removal
pub mod Hiding
pub mod Agreement
pub mod Reports
