-- ===== src/Skinny/Config.antt =====
-- The launch geometry of the QPN2 kernels: `_QPN2_TABLE`, `_qpn2_cfg` and the multi-tile variant
-- inside `_skinny_linear` of fork_patches/marlin.py.
pub mod Laws
use v100_skinny_unify.Prelude.{
  ℕ, ◌*◌, ◌/◌, ◌%◌, min, Bool, true, false, Option, none, some, List, [], ◌∷◌, ltb, leb, ◌==◌, ◌&&◌,
  ◌||◌, if◌then◌else◌,
}

-- (splitk, nacc)
abbrev pub Geometry : Type 0
Geometry = ℕ × ℕ

pub record Row : Type 0 where
  pub k : ℕ
  pub n : ℕ
  pub splitk : ℕ
  pub nacc : ℕ

abbrev pub qpn2_table : List Row
qpn2_table =
    record { k = 1536; n = 5120; splitk = 16; nacc = 2 }
    ∷ record { k = 4352; n = 5120; splitk = 16; nacc = 2 }
    ∷ record { k = 5120; n = 8704; splitk = 8; nacc = 2 }
    ∷ record { k = 5120; n = 4096; splitk = 16; nacc = 2 }
    ∷ record { k = 5120; n = 2048; splitk = 32; nacc = 2 }
    ∷ record { k = 5120; n = 62080; splitk = 8; nacc = 1 }
    ∷ record { k = 5120; n = 3584; splitk = 16; nacc = 2 }
    ∷ []

-- _QPN2_TABLE.get((k, n))
unfoldable pub table_get : List Row → ℕ → ℕ → Option Geometry
table_get [] k n = none
table_get (r ∷ rs) k n = if r.k == k && r.n == n then some (r.splitk, r.nacc) else table_get rs k n

-- return (s, 2 if s >= 16 else 1)
unfoldable pub with_nacc : ℕ → Geometry
with_nacc s = (s, if leb 16 s then 2 else 1)

-- for s in splits: if test(s): return …
unfoldable pub first_split : (ℕ → Bool) → List ℕ → Option Geometry
unfolding with_nacc
first_split test [] = none
first_split test (s ∷ ss) = if test s then some (with_nacc s) else first_split test ss

unfoldable pub or_else : Option Geometry → Option Geometry → Option Geometry
or_else (some g) rest = some g
or_else none rest = rest

-- The entry of the table, if its split divides the groups.
unfoldable pub accept : ℕ → Option Geometry → Option Geometry
accept groups none = none
accept groups (some (s, a)) = if groups % s == 0 then some (s, a) else none

unfoldable pub qpn2_cfg : ℕ → ℕ → Option Geometry
unfolding table_get first_split or_else accept
qpn2_cfg k n =
    let groups = k / 16 in
    or_else (accept groups (table_get qpn2_table k n)) (
      or_else (first_split (λ s. groups % s == 0 && leb 640 (n / 32 * s)) (8 ∷ 16 ∷ 32 ∷ []))
        (first_split (λ s. groups % s == 0) (16 ∷ 8 ∷ [])))

pub record MtGeometry : Type 0 where
  pub splitk : ℕ
  pub nacc : ℕ
  pub mt : ℕ
  pub t : ℕ

-- The row tiles of the multi-tile kernel.
unfoldable pub row_tiles : ℕ → ℕ
row_tiles m = if leb m 16 then 2 else 4

-- The split that the staging buffer allows for that many row tiles.
unfoldable pub split_cap : ℕ → ℕ
split_cap mt = if mt == 2 then 16 else 8

unfoldable pub mt_geometry : ℕ → Geometry → MtGeometry
unfolding row_tiles split_cap
mt_geometry m (s, a) =
    let mt = row_tiles m in record { splitk = min s (split_cap mt); nacc = a; mt = mt; t = 2 }
