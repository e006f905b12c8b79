-- ===== src/Script.antt =====
-- src/script.c: what the program does with the Lua state of each thread.
pub mod Fields
pub mod Setup
pub mod Requests
pub mod Report
pub mod Addresses
pub mod Histograms
pub mod Threads
pub mod Balance
