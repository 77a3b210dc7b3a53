-- ===== src/Checksum.antt =====
-- crates/privacy_proxy_core/src/engine.rs: the checks of card numbers and of IBANs.
pub mod Luhn
pub mod Iban
