-- ===== src/Skinny/Layout/Inverse.antt =====
-- The index maps of the fragment order are permutations, with their inverses written out.
use v100_skinny_unify.Prelude.{
  ◌+◌, ◌*◌, ◌/◌, ◌%◌, ℕ, ◌+◌, ◌*◌, ◌/◌, ◌%◌, ◌<◌, ◌≡◌, refl, true, [], ◌∷◌, ◌&&◌, arith, ◌==◌, ltb,
  every_under, every_under_at,
}
use v100_skinny_unify.Prelude.Lists.{get_or}
use v100_skinny_unify.Prelude.Division.{row_of_offset, column_of_offset}
use v100_skinny_unify.Skinny.Layout.{korder, col, ncol, kidx, lane_cell, cell, chunk_size}

-- The lane that holds a row of a tile.
unfoldable pub lane_of : ℕ → ℕ
lane_of c = c / 4 % 2 * 16 + c / 8 * 4 + c % 4

-- The place of a column in its group.
unfoldable pub place_of : ℕ → ℕ
place_of p = get_or (0 ∷ 4 ∷ 1 ∷ 5 ∷ 2 ∷ 6 ∷ 3 ∷ 7 ∷ 8 ∷ 12 ∷ 9 ∷ 13 ∷ 10 ∷ 14 ∷ 11 ∷ 15 ∷ []) p 0

lane_table :
    every_under 32 (λ c.
      (col (lane_of c) == c) && (lane_of (col c) == c) && ltb (lane_of c) 32 && ltb (col c) 32)
    ≡ true
unfolding every_under col lane_of
lane_table = refl

place_table :
    every_under 16 (λ p.
      (get_or korder (place_of p) 0 == p)
      && (place_of (get_or korder p 0) == p)
      && ltb (place_of p) 16
      && ltb (get_or korder p 0) 16)
    ≡ true
unfolding every_under place_of
place_table = refl

pub record LaneFacts (c : ℕ) : Type 0 where
  pub col-lane_of : col (lane_of c) ≡ c
  pub lane_of-col : lane_of (col c) ≡ c
  pub lane_of-lt : lane_of c < 32
  pub col-lt : col c < 32

pub lane_facts : (c : ℕ) → c < 32 → LaneFacts c
lane_facts c h = ground (arith, every_under_at 32 _ h lane_table)

pub record PlaceFacts (p : ℕ) : Type 0 where
  pub korder-place_of : get_or korder (place_of p) 0 ≡ p
  pub place_of-korder : place_of (get_or korder p 0) ≡ p
  pub place_of-lt : place_of p < 16
  pub korder-lt : get_or korder p 0 < 16

pub place_facts : (p : ℕ) → p < 16 → PlaceFacts p
place_facts p h = ground (arith, every_under_at 16 _ h place_table)

pub chunk_size-pos : (groups : ℕ) → 0 < chunk_size groups
unfolding chunk_size
chunk_size-pos groups = omega arith

-- The tile, the group and the lane of an offset in [tiles][groups][32].
unfoldable pub tile_at : ℕ → ℕ → ℕ
tile_at groups x = x / 32 / groups

unfoldable pub group_at : ℕ → ℕ → ℕ
group_at groups x = x / 32 % groups

-- An offset in [tiles][groups][32][width] gives back its four subscripts.
pub record CellFacts (groups width t g l j : ℕ) : Type 0 where
  pub tile_at-cell : tile_at groups (cell groups width t g l j / width) ≡ t
  pub group_at-cell : group_at groups (cell groups width t g l j / width) ≡ g
  pub lane_at-cell : cell groups width t g l j / width % 32 ≡ l
  pub place_at-cell : cell groups width t g l j % width ≡ j

pub record LaneCellFacts (groups t g l : ℕ) : Type 0 where
  pub tile_at-lane_cell : tile_at groups (lane_cell groups t g l) ≡ t
  pub group_at-lane_cell : group_at groups (lane_cell groups t g l) ≡ g
  pub lane_at-lane_cell : lane_cell groups t g l % 32 ≡ l

pub lane_cell_facts : (groups t g l : ℕ) → g < groups → l < 32 → LaneCellFacts groups t g l
unfolding lane_cell tile_at group_at
lane_cell_facts groups t g l hg hl =
    let row : ((t * groups + g) * 32 + l) / 32 ≡ t * groups + g = omega arith in
    record {
      tile_at-lane_cell = rw row (row_of_offset t g hg);
      group_at-lane_cell = rw row (column_of_offset t g hg);
      lane_at-lane_cell = omega arith;
    }

pub cell_facts :
    (groups width t g l j : ℕ) → g < groups → l < 32 → j < width → CellFacts groups width t g l j
unfolding cell
cell_facts groups width t g l j hg hl hj =
    let outer = row_of_offset (lane_cell groups t g l) j hj in
    let inner = lane_cell_facts groups t g l hg hl in
    record {
      tile_at-cell = rw outer inner.tile_at-lane_cell;
      group_at-cell = rw outer inner.group_at-lane_cell;
      lane_at-cell = rw outer inner.lane_at-lane_cell;
      place_at-cell = column_of_offset (lane_cell groups t g l) j hj;
    }

-- Every row of a tiled matrix is the row of one lane.
pub ncol-lane_of : (r : ℕ) → ncol (r / 32) (lane_of (r % 32)) ≡ r
unfolding ncol
ncol-lane_of r = omega (arith, (lane_facts (r % 32) (omega arith)).col-lane_of)

-- Every column of a grouped matrix is one place of a group.
pub kidx-place_of : (c : ℕ) → kidx (c / 16) (place_of (c % 16)) ≡ c
unfolding kidx
kidx-place_of c = omega (arith, (place_facts (c % 16) (omega arith)).korder-place_of)

-- The row and the column that a lane holds determine the tile, the lane, the group and the place.
pub record RowFacts (t l : ℕ) : Type 0 where
  pub tile-ncol : ncol t l / 32 ≡ t
  pub lane-ncol : lane_of (ncol t l % 32) ≡ l

pub row_facts : (t l : ℕ) → l < 32 → RowFacts t l
unfolding ncol
row_facts t l h =
    let c = lane_facts l h in
    record {
      tile-ncol = omega (arith, c.col-lt);
      lane-ncol =
          rw (let e : (t * 32 + col l) % 32 ≡ col l = omega (arith, c.col-lt) in e) c.lane_of-col;
    }

pub record ColumnFacts (g j : ℕ) : Type 0 where
  pub group-kidx : kidx g j / 16 ≡ g
  pub place-kidx : place_of (kidx g j % 16) ≡ j

pub column_facts : (g j : ℕ) → j < 16 → ColumnFacts g j
unfolding kidx
column_facts g j h =
    let p = place_facts j h in
    let e : (g * 16 + get_or korder j 0) % 16 ≡ get_or korder j 0 = omega (arith, p.korder-lt) in
    record { group-kidx = omega (arith, p.korder-lt); place-kidx = rw e p.place_of-korder }

-- What a lane holds lies inside the matrix.
pub ncol-lt : (t l n : ℕ) → l < 32 → t < n / 32 → ncol t l < n
unfolding ncol
ncol-lt t l n h p = omega (arith, (lane_facts l h).col-lt)

pub kidx-lt : (g j k : ℕ) → j < 16 → g < k / 16 → kidx g j < k
unfolding kidx
kidx-lt g j k h p = omega (arith, (place_facts j h).korder-lt)
