-- ===== src/Examples.antt =====
-- Concrete runs of the theorems, on a board whose MMU is on with memory split in two halves.
pub mod Board
mod Texts
mod Dumps
mod Older
mod Starts
mod Allocator
mod Tables
mod Blocks
mod Boot
pub mod Tags
mod Trees
