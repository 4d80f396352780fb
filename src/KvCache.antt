-- ===== src/KvCache.antt =====
-- The KV cache: which dtype it has (fork_patches/torch_utils.py, fork_patches/attention.py) and how
-- an NVFP4 page is laid out (fork_patches/torch_utils.py).
pub mod Text
pub mod Policy
pub mod Nvfp4
mod Examples
