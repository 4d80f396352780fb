-- ===== src/Skinny/LmHead/Shards.antt =====
-- The rows of the checkpoint's lm_head that each rank loads.
use v100_skinny_unify.Prelude.{◌∙◌, ℕ, ◌+◌, ◌*◌, ◌/◌, ◌%◌, ◌≤◌, ◌<◌, ◌≡◌, ap, some, arith}
use native.Mathlib.Nat.{div-add-mod'}
use v100_skinny_unify.Prelude.Options.{◌>>=◌}
use v100_skinny_unify.Prelude.Division.{div-lt}
use v100_skinny_unify.Tensor.{Buf, Tensor}
use v100_skinny_unify.Skinny.LmHead.{Checkpoint, weight_key, rows_from, shard_of}
use Prim.Native.String.{String}

row_of :
    (width off n i j : ℕ) (b : Buf)
    → (rows_from width off n b).at (i * width + j) ≡ b ((off + i) * width + j)
unfolding rows_from
row_of width off n i j b = ap b (omega arith)

-- The shard that the rank loads, if its rows are in the file.
loads :
    (f : Checkpoint) (rank n k : ℕ) (key : String)
    → weight_key f.keys ≡ some key
    → rank * n + n ≤ f.rows key
    → shard_of rank n k f
      ≡ some (
        rows_from (k / 2) (rank * n) n (f.codes key),
        rows_from (k / 16) (rank * n) n (f.scales key),
      )
unfolding shard_of ◌>>=◌
loads f rank n k key found inside = rw found (ground arith)

-- The rank in whose shard a row lies has its whole shard in the file.
shard_inside : (r n world : ℕ) → 0 < n → r < world * n → r / n * n + n ≤ world * n
shard_inside r n world some_row h = let below = div-lt {h = world} some_row h in grind arith

-- The shards of the ranks make up the lm_head of the file: if its rows are divided among `world`
-- ranks, `n` each, then there is a rank r / n, and it
-- loads row r, as its row r % n, with every byte of its
-- codes and of its scales.
pub shards-cover :
    (f : Checkpoint) (world n k r : ℕ) (key : String)
    → weight_key f.keys ≡ some key
    → f.rows key ≡ world * n
    → r < f.rows key
    → 0 < n
    → (r / n < world)
      × (p : Tensor × Tensor) × (shard_of (r / n) n k f ≡ some p)
      × ((j : ℕ) → p.0.at (r % n * (k / 2) + j) ≡ f.codes key (r * (k / 2) + j))
      × ((j : ℕ) → p.1.at (r % n * (k / 16) + j) ≡ f.scales key (r * (k / 16) + j))
shards-cover f world n k r key found even inside some_row =
    let whole : r / n * n + r % n ≡ r = div-add-mod' r n in
    let same = λ (width j : ℕ) (b : Buf).
      row_of width (r / n * n) n (r % n) j b ∙ ap (λ i. b (i * width + j)) whole in
    (
      div-lt some_row (omega arith),
      (
        rows_from (k / 2) (r / n * n) n (f.codes key),
        rows_from (k / 16) (r / n * n) n (f.scales key),
      ),
      loads f (r / n) n k key found omega (arith, shard_inside r n world some_row (omega arith)),
      λ j. same (k / 2) j (f.codes key),
      λ j. same (k / 16) j (f.scales key),
    )
