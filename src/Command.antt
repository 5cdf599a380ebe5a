-- ===== src/Command.antt =====
-- cmd/clusterproof/main.go: the command `scan`.
pub mod Options
pub mod Machine
pub mod Scan
pub mod Finish
