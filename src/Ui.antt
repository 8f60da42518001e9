-- ===== src/Ui.antt =====
-- The graphical user interface of ui/, as far as it has a state of its own.
pub mod Draw
pub mod Shapes
pub mod Pointer
pub mod Gterm
mod Examples
