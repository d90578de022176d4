-- ===== src/Cli.antt =====
-- cmd/straggler/cmd: the command line of the program.
pub mod Flags
pub mod Service
pub mod Telemetry
