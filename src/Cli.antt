-- ===== src/Cli.antt =====
-- src/labelfab/cli.py: what the commands of the command line do.
pub mod Preview
pub mod Build
pub mod Probe
