-- ===== src/Kernel.antt =====
-- The kernel proper of kernel/, beside the allocator and the scheduler: texts and numbers, printing,
-- interrupts and system calls, the panic, and the initialisation with the main loop.
pub mod Text
pub mod Print
pub mod Terminal
pub mod Panic
pub mod Main
pub mod Interrupts
pub mod Syscall
mod Examples
