-- ===== src/Skinny/Prepack/Unpack.antt =====
-- What the unpacking loops leave in the matrices: at a place that a lane holds, and at any place.
use v100_skinny_unify.Prelude.{ℕ, ◌+◌, ◌*◌, ◌/◌, ◌%◌, ◌<◌, ◌≡◌, ◌∙◌, sym, arith}
use v100_skinny_unify.Prelude.Division.{row_of_offset, column_of_offset, div-lt}
use native.Mathlib.Nat.{div-add-mod', mod-lt}
use v100_skinny_unify.Tensor.{Buf}
use v100_skinny_unify.Tensor.Fills.{scatter_hits}
use v100_skinny_unify.Skinny.Layout.{ncol, kidx, lane_cell, chunk_size}
use v100_skinny_unify.Skinny.Layout.Inverse.{
  lane_of, place_of, row_facts, column_facts, lane_facts, place_facts, kidx-lt, ncol-lane_of,
  kidx-place_of, chunk_size-pos,
}
use v100_skinny_unify.Skinny.Prepack.{split_nibble, unprepack_nibbles, unprepack_scales}

-- A function of the tile, the group, the lane and the place, read at a place of the matrix.
pub at_matrix : ℕ → (ℕ → ℕ → ℕ → ℕ → ℕ) → Buf
at_matrix k f a =
    let r = a / k in let c = a % k in f (r / 32) (c / 16) (lane_of (r % 32)) (place_of (c % 16))

pub at_matrix-place :
    (k : ℕ) (f : ℕ → ℕ → ℕ → ℕ → ℕ) (t g l j : ℕ)
    → g < k / 16
    → l < 32
    → j < 16
    → at_matrix k f (ncol t l * k + kidx g j) ≡ f t g l j
unfolding at_matrix
at_matrix-place k f t g l j hg hl hj =
    let inside = kidx-lt g j k hj hg in
    let r = row_facts t l hl in
    let c = column_facts g j hj in
    rw (row_of_offset (ncol t l) (kidx g j) inside, column_of_offset (ncol t l) (kidx g j) inside)
      (rw (r.tile-ncol, r.lane-ncol, c.group-kidx, c.place-kidx))

module _ (tiles k : ℕ) (first : Buf) (t g l : ℕ) (ht : t < tiles) (hg : g < k / 16)
    (hl : l < 32) where
  pub unprepack_nibbles-place :
      (qc : Buf) (j : ℕ)
      → j < 16
      → unprepack_nibbles tiles (k / 16) k qc first (ncol t l * k + kidx g j)
        ≡ split_nibble (k / 16) qc t g l j
  unfolding unprepack_nibbles
  unprepack_nibbles-place qc j hj =
      scatter_hits (at_matrix k (split_nibble (k / 16) qc)) tiles (k / 16) (chunk_size (k / 16)) 16
        (λ t' g' l' j'. ncol t' l' * k + kidx g' j') (split_nibble (k / 16) qc)
        (chunk_size-pos (k / 16))
        (λ t' g' l' j' _ hg' hl' hj'. sym (at_matrix-place k _ t' g' l' j' hg' hl' hj')) first t g l
        j ht hg hl hj
      ∙ at_matrix-place k _ t g l j hg hl hj

-- A function of the tile, the group and the lane, read at a place of the matrix of scales.
pub at_scales : ℕ → (ℕ → ℕ → ℕ → ℕ) → Buf
at_scales groups f a = let r = a / groups in f (r / 32) (a % groups) (lane_of (r % 32))

pub at_scales-place :
    (groups : ℕ) (f : ℕ → ℕ → ℕ → ℕ) (t g l : ℕ)
    → g < groups
    → l < 32
    → at_scales groups f (ncol t l * groups + g) ≡ f t g l
unfolding at_scales
at_scales-place groups f t g l hg hl =
    let r = row_facts t l hl in
    rw (row_of_offset (ncol t l) g hg, column_of_offset (ncol t l) g hg)
      (rw (r.tile-ncol, r.lane-ncol))

pub unprepack_scales-place :
    (tiles groups : ℕ) (qs first : Buf) (t g l : ℕ)
    → t < tiles
    → g < groups
    → l < 32
    → unprepack_scales tiles groups qs first (ncol t l * groups + g) ≡ qs (lane_cell groups t g l)
unfolding unprepack_scales
unprepack_scales-place tiles groups qs first t g l ht hg hl =
    scatter_hits (at_scales groups (λ t' g' l'. qs (lane_cell groups t' g' l'))) tiles groups
      (chunk_size groups) 1 (λ t' g' l' _. ncol t' l' * groups + g')
      (λ t' g' l' _. qs (lane_cell groups t' g' l')) (chunk_size-pos groups)
      (λ t' g' l' _ _ hg' hl' _. sym (at_scales-place groups _ t' g' l' hg' hl')) first t g l 0 ht
      hg hl (omega arith)
    ∙ at_scales-place groups _ t g l hg hl

-- A place of the matrix is a place that a lane holds.
pub record Place (n k a : ℕ) : Type 0 where
  pub tile : ℕ
  pub group : ℕ
  pub lane : ℕ
  pub slot : ℕ
  pub tile_lt : tile < n / 32
  pub group_lt : group < k / 16
  pub lane_lt : lane < 32
  pub slot_lt : slot < 16
  pub address : ncol tile lane * k + kidx group slot ≡ a

pub address-Place : (n k a : ℕ) → n % 32 ≡ 0 → k % 16 ≡ 0 → 0 < k → a < n * k → Place n k a
address-Place n k a hn hk pos h =
    let r : a / k < n = div-lt pos h in
    let c : a % k < k = mod-lt a pos in
    record {
      tile = a / k / 32;
      group = a % k / 16;
      lane = lane_of (a / k % 32);
      slot = place_of (a % k % 16);
      tile_lt = omega arith;
      group_lt = omega arith;
      lane_lt = (lane_facts (a / k % 32) (omega arith)).lane_of-lt;
      slot_lt = (place_facts (a % k % 16) (omega arith)).place_of-lt;
      address = rw (ncol-lane_of, kidx-place_of) (div-add-mod' a k);
    }
