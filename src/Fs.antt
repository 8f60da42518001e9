-- ===== src/Fs.antt =====
-- The file system of fs/.
pub mod Fat32
pub mod Elf
pub mod Installer
