-- ===== src/Examples.antt =====
-- The theorems at concrete inputs, and runs of the program's functions.
mod Setting
mod Core
mod Values
mod Checksums
mod Lines
mod Requests
mod Tasks
mod Commands
