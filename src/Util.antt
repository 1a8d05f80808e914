-- ===== src/Util.antt =====
-- source/util and include/util.
pub mod Bits
