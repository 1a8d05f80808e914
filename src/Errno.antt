-- ===== src/Errno.antt =====
-- include/errno.h.
pub data Errno : Type 0 where
  esucc einval enotfnd enotinit enotsupp ealign enotenb esize : Errno
