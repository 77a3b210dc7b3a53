-- ===== src/Proxy.antt =====
-- crates/privacy_proxy_proxy/src/lib.rs: the counters, the bodies and headers of requests, and the
-- handler.
pub mod Metrics
pub mod Headers
pub mod Body
pub mod Target
pub mod Response
pub mod Handler
pub mod Actions
pub mod Schedule
pub mod Render
pub mod Server
