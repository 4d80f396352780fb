-- ===== src/Flash.antt =====
-- The attention backend of fork_patches/flash_attn_v100.py: the host code around its kernels.
pub mod Tree
pub mod Pages
pub mod Cache
pub mod Dense
pub mod Forward
pub mod Smallq
pub mod Live
pub mod Decode
pub mod Builder
mod Examples
