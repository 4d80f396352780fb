-- ===== src/Qpn8/Pack/RoundTrip.antt =====
-- `_sm70_qpn8_unpack` inverts `_sm70_qpn8_prepack`, and the other way round.
use v100_skinny_unify.Prelude.{ℕ, ◌+◌, ◌*◌, ◌/◌, ◌%◌, ◌<◌, ◌≡◌, sym, ◌∙◌, arith}
use mathlib.Core.Path.{subst}
use v100_skinny_unify.Tensor.{Buf}
use v100_skinny_unify.Tensor.Fills.{scatter_hits}
use v100_skinny_unify.Skinny.Layout.{ncol, kidx, cell}
use v100_skinny_unify.Skinny.Layout.Inverse.{tile_at, group_at, cell_facts}
use v100_skinny_unify.Skinny.Prepack.Unpack.{at_matrix, at_matrix-place, address-Place}
use v100_skinny_unify.Qpn8.Pack.{chunk_size8, prepack8, unpack8}

chunk_size8-pos : (groups : ℕ) → 0 < chunk_size8 groups
unfolding chunk_size8
chunk_size8-pos groups = omega arith

-- A function of the four subscripts, read at an offset of the packed buffer.
at_cell : ℕ → (ℕ → ℕ → ℕ → ℕ → ℕ) → Buf
at_cell groups f i = let x = i / 16 in f (tile_at groups x) (group_at groups x) (x % 32) (i % 16)

at_cell-cell :
    (groups : ℕ) (f : ℕ → ℕ → ℕ → ℕ → ℕ) (t g l j : ℕ)
    → g < groups
    → l < 32
    → j < 16
    → at_cell groups f (cell groups 16 t g l j) ≡ f t g l j
unfolding at_cell
at_cell-cell groups f t g l j hg hl hj =
    let c = cell_facts groups 16 t g l j hg hl hj in
    rw (c.tile_at-cell, c.group_at-cell, c.lane_at-cell, c.place_at-cell)

module _ (n k : ℕ) (first : Buf) (t g l j : ℕ) (ht : t < n / 32) (hg : g < k / 16) (hl : l < 32)
    (hj : j < 16) where
  pub prepack8-cell :
      (w8 : Buf) → prepack8 n k w8 first (cell (k / 16) 16 t g l j) ≡ w8 (ncol t l * k + kidx g j)
  unfolding prepack8
  prepack8-cell w8 =
      let value = λ (t' g' l' j' : ℕ). w8 (ncol t' l' * k + kidx g' j') in
      scatter_hits (at_cell (k / 16) value) (n / 32) (k / 16) (chunk_size8 (k / 16)) 16
        (cell (k / 16) 16) value (chunk_size8-pos (k / 16))
        (λ t' g' l' j' _ hg' hl' hj'. sym (at_cell-cell (k / 16) value t' g' l' j' hg' hl' hj'))
        first t g l j ht hg hl hj
      ∙ at_cell-cell (k / 16) value t g l j hg hl hj

  pub unpack8-place :
      (packed : Buf)
      → unpack8 n k packed first (ncol t l * k + kidx g j) ≡ packed (cell (k / 16) 16 t g l j)
  unfolding unpack8
  unpack8-place packed =
      let value = λ (t' g' l' j' : ℕ). packed (cell (k / 16) 16 t' g' l' j') in
      scatter_hits (at_matrix k value) (n / 32) (k / 16) (chunk_size8 (k / 16)) 16
        (λ t' g' l' j'. ncol t' l' * k + kidx g' j') value (chunk_size8-pos (k / 16))
        (λ t' g' l' j' _ hg' hl' hj'. sym (at_matrix-place k value t' g' l' j' hg' hl' hj')) first t
        g l j ht hg hl hj
      ∙ at_matrix-place k value t g l j hg hl hj

-- Unpacking a packed weight gives back every byte of it, whatever the new buffers held, for a
-- shape with whole tiles of 32 rows and whole groups of 16 columns.
pub unpack8-prepack8 :
    (n k : ℕ) (w8 packed₀ out₀ : Buf) (a : ℕ)
    → n % 32 ≡ 0
    → k % 16 ≡ 0
    → a < n * k
    → unpack8 n k (prepack8 n k w8 packed₀) out₀ a ≡ w8 a
unpack8-prepack8 n k w8 packed₀ out₀ a rows columns h =
    let p = address-Place n k a rows columns (grind arith) h in
    subst (λ x. unpack8 n k (prepack8 n k w8 packed₀) out₀ x ≡ w8 x) p.address
      (unpack8-place n k out₀ p.tile p.group p.lane p.slot p.tile_lt p.group_lt p.lane_lt p.slot_lt
          (prepack8 n k w8 packed₀)
        ∙ prepack8-cell n k packed₀ p.tile p.group p.lane p.slot p.tile_lt p.group_lt p.lane_lt
            p.slot_lt w8)

-- Packing an unpacked buffer of the shape [tiles][groups][32][16] gives back every byte of
-- it, whatever the new buffers held.
pub prepack8-unpack8 :
    (n k : ℕ) (packed packed₀ out₀ : Buf) (t g l j : ℕ)
    → t < n / 32
    → g < k / 16
    → l < 32
    → j < 16
    → prepack8 n k (unpack8 n k packed out₀) packed₀ (cell (k / 16) 16 t g l j)
      ≡ packed (cell (k / 16) 16 t g l j)
prepack8-unpack8 n k packed packed₀ out₀ t g l j ht hg hl hj =
    prepack8-cell n k packed₀ t g l j ht hg hl hj (unpack8 n k packed out₀)
    ∙ unpack8-place n k out₀ t g l j ht hg hl hj packed
