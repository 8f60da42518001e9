-- ===== src/Drivers.antt =====
-- The drivers of drivers/, and the ports and disks that they stand on.
pub mod Ports
pub mod Disk
pub mod Ata
pub mod Keyboard
pub mod Mouse
pub mod Serial
pub mod Vesa
pub mod Examples
