-- ===== src/Fs/Fat32.antt =====
-- fs/fat32.c, by its parts: the sectors and the allocation table, the names, the directory, the
-- operations on files and the listing, with the areas of the volume that the theorems follow.
pub mod Table
pub mod Names
pub mod Dir
pub mod Areas
pub mod Sectors
pub mod Layout
pub mod Alloc
pub mod Chain
pub mod Listing
pub mod Files
mod Examples
