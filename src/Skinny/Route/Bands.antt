-- ===== src/Skinny/Route/Bands.antt =====
-- The route of a call by its number of rows, with the environment's defaults.
use v100_skinny_unify.Prelude.{
  ℕ, ◌%◌, ◌<◌, ◌≡◌, ◌≢◌, refl, Bool, true, false, Option, none, some, arith, ◌&&◌, leb,
  if◌then◌else◌,
}
use v100_skinny_unify.Skinny.Env.{Env, defaults}
use v100_skinny_unify.Skinny.Config.{Geometry, qpn2_cfg}
use v100_skinny_unify.Skinny.Config.Laws.{qpn2_cfg-none}
use v100_skinny_unify.Skinny.Route.{
  Call, Route, float16, qpn2, qpn2mt, wmma, recon, wmma_recon, marlin, is_some, has_ct, has_qpn,
  tiled, within, to_mt, plan_qpn2, plan_mt, plan_qpn, plan_qpn1, plan_simt, plan_wmma,
  plan_reconstruct, plan_dense, plan_unify_dense, transient_fits, dense_ok, wmma_ok, plan, route_of,
  route,
}

-- All three copies of the weight are resident.
abbrev pub bands : Bool → ℕ → Route
bands fits m =
    if leb 1 m && leb m 8
    then qpn2
    else if leb 9 m && leb m 32
    then qpn2mt
    else if leb m 64
    then wmma
    else if leb 512 m && fits
    then recon
    else marlin

-- Only the packed copy is resident.
abbrev pub unify_bands : Bool → ℕ → Route
unify_bands fits m =
    if leb 1 m && leb m 8
    then qpn2
    else if leb 9 m && leb m 32
    then qpn2mt
    else if leb 128 m && fits
    then recon
    else wmma_recon

cfg_some : (k n : ℕ) → k % 128 ≡ 0 → is_some (qpn2_cfg k n) ≡ true
cfg_some k n h = known (qpn2_cfg k n) (λ e. (qpn2_cfg-none k n).0 e (omega arith))
  where
    known : (o : Option Geometry) → o ≢ none → is_some o ≡ true
    known none ne = absurd (ne refl)
    known (some g) ne = refl

to_mt-is_some : (e : Env) (c : Call) (o : Option Geometry) → is_some (to_mt e c o) ≡ is_some o
to_mt-is_some e c none = refl
to_mt-is_some e c (some g) = refl

module _ (c : Call) (columns : c.k % 128 ≡ 0) (rows : c.n % 64 ≡ 0) (packed : 0 < c.qpn_numel) where
  qpn2_band : is_some (plan_qpn2 defaults c) ≡ within defaults c 1 8
  unfolding plan_qpn2 has_qpn tiled within
  qpn2_band = ground (arith, cfg_some c.k c.n)

  mt_band : is_some (plan_mt defaults c) ≡ within defaults c 9 32
  unfolding plan_mt has_qpn tiled within
  mt_band = ground (arith, cfg_some c.k c.n, to_mt-is_some defaults c (qpn2_cfg c.k c.n))

  qpn_band : plan_qpn defaults c ≡ within defaults c 4 16
  unfolding plan_qpn has_qpn tiled within
  qpn_band = ground arith

  -- With the defaults, a half-precision call outside a capture on a layer with all three copies, of
  -- n % 64 == 0 and k % 128 == 0, takes the route of its band: 1 to 8 rows qpn2, 9 to 32 qpn2mt,
  -- the others up to 64 wmma, from 512 on recon if the transient fits, and marlin otherwise.
  pub route-bands :
      0 < c.codes_numel
      → 0 < c.marlin_numel
      → c.dtype ≡ float16
      → c.capturing ≡ false
      → route defaults c ≡ bands (transient_fits defaults c) c.m
  unfolding route route_of plan plan_qpn1 plan_simt plan_wmma plan_reconstruct plan_dense dense_ok
      has_ct has_qpn within
  route-bands ct mar half idle = ground (arith, qpn2_band, mt_band, qpn_band)

  -- With the defaults and only the packed copy resident, of n % 64 == 0 and k % 256 == 0, a
  -- half-precision call outside a capture takes, while the self-check has not failed, the route of
  -- its band: 1 to 8 rows qpn2, 9 to 32 qpn2mt, from 128 on recon if the transient fits, and the
  -- wmma kernel on unpacked codes otherwise.
  pub route-unify_bands :
      c.codes_numel ≡ 0
      → c.marlin_numel ≡ 0
      → c.k % 256 ≡ 0
      → c.skinny_ok ≡ true
      → c.dtype ≡ float16
      → c.capturing ≡ false
      → route defaults c ≡ unify_bands (transient_fits defaults c) c.m
  unfolding route route_of plan plan_qpn1 plan_simt plan_wmma plan_reconstruct plan_dense
      plan_unify_dense wmma_ok dense_ok has_ct has_qpn within
  route-unify_bands ct mar wide ok half idle = ground (arith, qpn2_band, mt_band, qpn_band)
