-- ===== src/Skinny/Layout.antt =====
-- The fragment order of the QPN buffers (`_qpn_prepack`, `_qpn_unprepack` of
-- fork_patches/marlin.py, and `_sm70_qpn8_indices` of fork_patches/modelopt.py, which computes the
-- same indices): which row and which column of the weight a lane of a tile and group holds.
pub mod Inverse
use v100_skinny_unify.Prelude.{
  ℕ, ◌+◌, ◌*◌, ◌/◌, ◌^◌, max, List, [], ◌∷◌, bit_and, ltb, if◌then◌else◌,
}
use v100_skinny_unify.Prelude.Lists.{get_or}

-- korder
abbrev pub korder : List ℕ
korder = 0 ∷ 2 ∷ 4 ∷ 6 ∷ 1 ∷ 3 ∷ 5 ∷ 7 ∷ 8 ∷ 10 ∷ 12 ∷ 14 ∷ 9 ∷ 11 ∷ 13 ∷ 15 ∷ []

-- ((lane >> 2) & 3) * 8 + (lane & 3) + ((lane & 16) > 0).long() * 4
unfoldable pub col : ℕ → ℕ
col lane =
    bit_and (lane / 2 ^ 2) 3 * 8 + bit_and lane 3 + (if ltb 0 (bit_and lane 16) then 1 else 0) * 4

-- The row of the weight that a lane of a tile reads.
unfoldable pub ncol : ℕ → ℕ → ℕ
ncol t lane = t * 32 + col lane

-- The column of the weight at a place of a group.
unfoldable pub kidx : ℕ → ℕ → ℕ
kidx g j = g * 16 + get_or korder j 0

-- The offset of [t][g][lane] in a tensor of the shape [tiles][groups][32].
unfoldable pub lane_cell : ℕ → ℕ → ℕ → ℕ → ℕ
lane_cell groups t g lane = (t * groups + g) * 32 + lane

-- The offset of [t][g][lane][j] in a tensor of the shape [tiles][groups][32][width].
unfoldable pub cell : ℕ → ℕ → ℕ → ℕ → ℕ → ℕ → ℕ
unfolding lane_cell
cell groups width t g lane j = lane_cell groups t g lane * width + j

-- How many tiles one round of the chunked loops takes. Python's division refuses the case of no
-- groups, a weight without columns, which is 1 here.
unfoldable pub chunk_size : ℕ → ℕ
chunk_size groups = max 1 (36864 / groups)
