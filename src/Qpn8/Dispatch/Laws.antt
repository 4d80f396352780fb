-- ===== src/Qpn8/Dispatch/Laws.antt =====
-- The census against the launches, and the launches' geometry.
use v100_skinny_unify.Prelude.{
  ◌&&◌, leb, Bool-cases, inl, inr, ℕ, ◌*◌, ◌/◌, ◌%◌, ◌≤◌, ◌<◌, ◌≡◌, false, arith, ◌⊎◌,
}
use v100_skinny_unify.Skinny.Config.{Geometry, table_get, row_tiles, split_cap}
use v100_skinny_unify.Qpn8.Dispatch.{
  Env8, Launch, native, chunked, reconstruct, mt2_table, get_default, mtt_ok, mt2_ok, route8,
  fast_nacc, mtt_launch, launch8, apply8, label8, layer_cfg, qpn8_chunked,
}

-- The census names the launch that runs, if the chunked band reaches at least 16 rows.
pub label8-launch8 :
    (e : Env8) (n k m s a : ℕ) → 16 ≤ e.chunk_max → label8 (launch8 e n k m (s, a)) ≡ route8 e m
unfolding label8 launch8 route8 mtt_launch
label8-launch8 e n k m s a h = ground arith

-- With the chunked band below 9 to 16 rows and no multi-tile kernel, the census says
-- `qpn8-chunked` for those rows, and the weight is reconstructed.
pub label8-launch8_short_band :
    (e : Env8) (n k m : ℕ) (g : Geometry)
    → mtt_ok e ≡ false
    → mt2_ok e ≡ false
    → 8 < m
    → m ≤ 16
    → e.chunk_max < m
    → (route8 e m ≡ qpn8_chunked) × (launch8 e n k m g ≡ reconstruct)
unfolding launch8 route8
label8-launch8_short_band e n k m g no_mtt no_mt2 lo hi short = ground arith

-- The split of a layer's configuration divides its groups, for every shape that is packed.
pub layer_cfg_divides :
    (n k : ℕ)
    → k % 64 ≡ 0
    → (k / 16 % (layer_cfg n k).0 ≡ 0)
      × (((layer_cfg n k).0 ≡ 4) ⊎ ((layer_cfg n k).0 ≡ 8) ⊎ ((layer_cfg n k).0 ≡ 16))
      × (1 ≤ (layer_cfg n k).1)
unfolding layer_cfg get_default table_get
layer_cfg_divides n k h = ground arith

abbrev pub IsLaunchable : (k m : ℕ) → Launch → Type 0
IsLaunchable k m (native g) = (m ≤ 8) × (k / 16 % g.0 ≡ 0)
IsLaunchable k m (Launch.mtt s a mt t) =
    (m ≤ 8 * mt) × (k / 16 % s ≡ 0) × (s * t * mt ≤ 96) × (3 ≤ a)
IsLaunchable k m (Launch.mt2 g) = (m ≤ 16) × (k / 16 % g.0 ≡ 0)
IsLaunchable k m (chunked g) = (8 < m) × (k / 16 % g.0 ≡ 0)
IsLaunchable k m reconstruct = 8 < m

-- The splits of the two-tile table divide the groups of its shapes.
mt2_divides :
    (n k s a : ℕ) → k / 16 % s ≡ 0 → k / 16 % (get_default (table_get mt2_table k n) (s, a)).0 ≡ 0
unfolding get_default table_get
mt2_divides n k s a h = ground arith

mtt_fits :
    (k m s a : ℕ)
    → m ≤ 32
    → k / 16 % s ≡ 0
    → (s ≡ 4) ⊎ (s ≡ 8) ⊎ (s ≡ 16)
    → 1 ≤ a
    → IsLaunchable k m (mtt_launch m (s, a))
unfolding mtt_launch row_tiles split_cap fast_nacc
mtt_fits k m s a h d r pos = ground arith

launch8_fits :
    (e : Env8) (n k m s a : ℕ)
    → k / 16 % s ≡ 0
    → (s ≡ 4) ⊎ (s ≡ 8) ⊎ (s ≡ 16)
    → 1 ≤ a
    → IsLaunchable k m (launch8 e n k m (s, a))
unfolding launch8
launch8_fits e n k m s a d r pos = elim (Bool-cases (leb m 32 && mtt_ok e)) [
  | inl yes_mtt ↦ elim (Bool-cases (leb m 8)) [
    | inl small ↦ rw small (ground arith, d)
    | inr large ↦ rw (large, yes_mtt) (mtt_fits k m s a (ground arith) d r pos)
  ]
  | inr no_mtt ↦ rw no_mtt ground (arith, mt2_divides n k s a)
]

apply8_fits :
    (e : Env8) (n k m s a : ℕ)
    → k / 16 % s ≡ 0
    → (s ≡ 4) ⊎ (s ≡ 8) ⊎ (s ≡ 16)
    → 1 ≤ a
    → IsLaunchable k m (apply8 e n k m (s, a))
unfolding apply8
apply8_fits e n k m s a d r pos = ground (arith, launch8_fits e n k m s a)

-- Every launch of a layer with k % 64 == 0 and the configuration it was loaded with fits:
-- the split divides the groups, the row tiles of the multi-tile kernel cover the rows, its
-- staging buffer is within 96 KB and its decoder is the fast one, and no weight is
-- reconstructed for 8 rows or fewer.
pub apply8-IsLaunchable :
    (e : Env8) (n k m : ℕ) → k % 64 ≡ 0 → IsLaunchable k m (apply8 e n k m (layer_cfg n k))
apply8-IsLaunchable e n k m h =
    let (d, r, pos) = layer_cfg_divides n k h in
    apply8_fits e n k m (layer_cfg n k).0 (layer_cfg n k).1 d r pos
