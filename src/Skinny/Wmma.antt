-- ===== src/Skinny/Wmma.antt =====
-- The launch checks of `skinny_gemm_wmma` of kernels/skinny_kernels.cu, which the dispatch of
-- fork_patches/marlin.py calls as `gemm_wmma`.
pub mod Laws
use v100_skinny_unify.Prelude.{ℕ, ◌%◌, Bool, leb, ◌==◌, ◌&&◌, if◌then◌else◌}

-- (NT, KC) of the launch for `m` rows.
unfoldable pub wmma_tile : ℕ → ℕ × ℕ
wmma_tile m =
    if leb m 16
    then (64, 256)
    else if leb m 32
    then (32, 128)
    else if leb m 64
    then (32, 128)
    else (32, 256)

-- TORCH_CHECK(n % NT == 0), TORCH_CHECK(k % KC == 0)
unfoldable pub wmma_takes : ℕ → ℕ → ℕ → Bool
unfolding wmma_tile
wmma_takes m n k = n % (wmma_tile m).0 == 0 && k % (wmma_tile m).1 == 0
