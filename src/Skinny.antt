-- ===== src/Skinny.antt =====
-- fork_patches/marlin.py: the skinny NVFP4 path.
pub mod Env
pub mod Layout
pub mod Prepack
pub mod Config
pub mod Route
pub mod Layer
pub mod SelfCheck
pub mod LmHead
pub mod Wmma
mod Examples
