-- ===== src/Cli.antt =====
-- crates/privacy_proxy_cli/src/main.rs: the line reader, redaction and scanning of lines, the subcommands,
-- and the corpus.
pub mod Reader
pub mod Lines
pub mod Run
pub mod Commands
pub mod Init
pub mod Corpus
pub mod Main
