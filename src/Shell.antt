-- ===== src/Shell.antt =====
-- shell/shell.c, the command line.
pub mod Address
pub mod Line
pub mod Services
pub mod Command
pub mod Execute
mod Examples
