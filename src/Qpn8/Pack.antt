-- ===== src/Qpn8/Pack.antt =====
-- `_sm70_qpn8_prepack` and `_sm70_qpn8_unpack` of fork_patches/modelopt.py. The fragment order is
-- that of `Skinny.Layout`: `_sm70_qpn8_indices` computes the same `col` and `kidx`.
pub mod RoundTrip
use v100_skinny_unify.Prelude.{ℕ, ◌+◌, ◌*◌, ◌/◌, max}
use v100_skinny_unify.Tensor.{Buf, scatter}
use v100_skinny_unify.Skinny.Layout.{ncol, kidx, cell}

-- max(1, 36864 // max(groups, 1))
unfoldable pub chunk_size8 : ℕ → ℕ
chunk_size8 groups = max 1 (36864 / max groups 1)

-- out[t0:t1] = w8[ncol, kidx]
unfoldable pub prepack8 : (n k : ℕ) → Buf → Buf → Buf
prepack8 n k w8 =
    let groups = k / 16 in
    scatter (n / 32) groups (chunk_size8 groups) 16 (cell groups 16)
      λ t g l j. w8 (ncol t l * k + kidx g j)

-- out[ncol, kidx] = src[t0:t1]
unfoldable pub unpack8 : (n k : ℕ) → Buf → Buf → Buf
unpack8 n k packed =
    let groups = k / 16 in
    scatter (n / 32) groups (chunk_size8 groups) 16 (λ t g l j. ncol t l * k + kidx g j)
      λ t g l j. packed (cell groups 16 t g l j)
