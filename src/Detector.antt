-- ===== src/Detector.antt =====
-- crates/privacy_proxy_core/src/engine.rs: the functions behind the detectors that do more than
-- replace a match.
pub mod Cookie
pub mod Url
pub mod Jwt
pub mod Ip
