-- ===== src/Gdn.antt =====
-- fork_patches/gdn_attn.py: the state slots of the Gated DeltaNet layers under speculative decoding.
pub mod Contract
pub mod Batch
pub mod Fast
pub mod Eligible
pub mod Index
pub mod Plain
pub mod Pure
pub mod Metadata
mod Examples
