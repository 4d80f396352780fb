-- ===== src/Skinny/Config/Laws.antt =====
-- What every chosen geometry satisfies.
use v100_skinny_unify.Prelude.{ℕ, ◌*◌, ◌/◌, ◌%◌, ◌≤◌, ◌≡◌, ◌≢◌, ◌↔◌, ◌⊎◌, none, some, arith}
use v100_skinny_unify.Skinny.Config.{
  Geometry, qpn2_table, table_get, qpn2_cfg, MtGeometry, split_cap, mt_geometry,
}

pub record IsGeometry (k : ℕ) (g : Geometry) : Type 0 where
  pub divides : k / 16 % g.0 ≡ 0
  pub split : (g.0 ≡ 8) ⊎ (g.0 ≡ 16) ⊎ (g.0 ≡ 32)
  pub nacc : (g.1 ≡ 1) ⊎ (g.1 ≡ 2)

-- The splits and accumulator counts of the table.
table_get-range :
    (k n s a : ℕ)
    → table_get qpn2_table k n ≡ some (s, a)
    → ((s ≡ 8) ⊎ (s ≡ 16) ⊎ (s ≡ 32)) × ((a ≡ 1) ⊎ (a ≡ 2))
unfolding table_get
table_get-range k n s a h = ground arith

-- A chosen geometry is launchable: its split divides the groups of 16 columns and is 8, 16 or 32,
-- and it has one or two accumulators.
pub qpn2_cfg-IsGeometry : (k n s a : ℕ) → qpn2_cfg k n ≡ some (s, a) → IsGeometry k (s, a)
unfolding qpn2_cfg
qpn2_cfg-IsGeometry k n s a h = ground (arith, table_get-range k n s a)

-- A shape has no geometry exactly when 8 does not divide its groups of 16 columns.
pub qpn2_cfg-none : (k n : ℕ) → (qpn2_cfg k n ≡ none) ↔ (k / 16 % 8 ≢ 0)
unfolding qpn2_cfg
qpn2_cfg-none k n = ground arith

-- The multi-tile launch for `m` rows that follows from a geometry of the table or the heuristic.
pub record IsMtLaunch (m k : ℕ) (base : Geometry) (g : MtGeometry) : Type 0 where
  pub divides : k / 16 % g.splitk ≡ 0
  pub staged : g.splitk * g.t * g.mt ≤ 96
  pub covers : m ≤ 8 * g.mt
  pub same_nacc : g.nacc ≡ base.1
  pub same_split : (g.splitk ≡ base.0) ↔ (base.0 ≤ split_cap g.mt)

mt_geometry_launch :
    (m k s a : ℕ) → m ≤ 32 → IsGeometry k (s, a) → IsMtLaunch m k (s, a) (mt_geometry m (s, a))
unfolding mt_geometry
mt_geometry_launch m k s a hm g = ground arith

-- The multi-tile launch for at most 32 rows: the split divides the groups, the staging buffer of
-- splitk * T * MT KB is within its 96 KB, the row tiles of 8 cover the rows, the accumulators are
-- those of the single-tile launch of the same shape, and the split is that launch's exactly when
-- it is within the cap (16 for two row tiles, 8 for four).
pub mt_geometry-IsMtLaunch :
    (m k n s a : ℕ)
    → m ≤ 32
    → qpn2_cfg k n ≡ some (s, a)
    → IsMtLaunch m k (s, a) (mt_geometry m (s, a))
mt_geometry-IsMtLaunch m k n s a hm h =
    mt_geometry_launch m k s a hm (qpn2_cfg-IsGeometry k n s a h)
