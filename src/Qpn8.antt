-- ===== src/Qpn8.antt =====
-- fork_patches/modelopt.py: the QPN8 path for FP8 weights.
pub mod Pack
pub mod Scales
pub mod Dispatch
pub mod Load
mod Examples
