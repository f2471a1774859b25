-- ===== src/Fat12.antt =====
-- The FAT12 driver, src/fat12.c, in its parts.
pub mod Table
pub mod Chain
pub mod Name
pub mod Disk
pub mod Dir
pub mod Files
pub mod Data
pub mod Listing
mod Tests
