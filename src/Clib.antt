-- ===== src/Clib.antt =====
-- The C library of lib/, which the kernel and the user programs share.
pub mod Text
pub mod Letters
pub mod Number
