-- ===== src/Skinny/Examples.antt =====
-- The packing, the geometries and the dispatch at concrete inputs: a layer of 64 rows and 128
-- columns (256 for the layer without another copy than the packed one).
use v100_skinny_unify.Prelude.{
  ℕ, ◌+◌, ◌*◌, ◌%◌, ◌<◌, ◌≡◌, ◌≢◌, ◌↔◌, ◌⊎◌, refl, inl, Bool, true, false, not, none, [], ◌∷◌, ◌==◌,
  arith,
}
use v100_skinny_unify.Tensor.{Buf}
use v100_skinny_unify.Skinny.Env.{Env, defaults}
use v100_skinny_unify.Skinny.Layout.{cell, lane_cell}
use v100_skinny_unify.Skinny.Prepack.{prepack, unprepack, prepack_codes, prepack_scales}
use v100_skinny_unify.Skinny.Prepack.Nibbles.{IsBytes}
use v100_skinny_unify.Skinny.Prepack.RoundTrip.{unprepack-prepack}
use v100_skinny_unify.Skinny.Prepack.Permutation.{prepack-unprepack}
use v100_skinny_unify.Skinny.Config.{table_get, qpn2_cfg, mt_geometry}
use v100_skinny_unify.Skinny.Config.Laws.{
  IsGeometry, qpn2_cfg-IsGeometry, qpn2_cfg-none, IsMtLaunch, mt_geometry-IsMtLaunch,
}
use v100_skinny_unify.Skinny.Route.{
  float16, bfloat16, Call, Kernel, recon, wmma_recon, dense, qpn2mt, route, kernel, label, dense_ok,
  has_ct, has_qpn, plan, plan_mt, plan_qpn, plan_qpn1, plan_qpn2, plan_reconstruct, plan_simt,
  plan_wmma, route_of, tiled, transient_fits, within, wmma_ok,
}
use v100_skinny_unify.Skinny.Route.Naming.{label-kernel, label-kernel_unserved}
use v100_skinny_unify.Skinny.Route.Resident.{kernel_failed}
use v100_skinny_unify.Skinny.Route.Launch.{IsServed, kernel-IsServed}
use v100_skinny_unify.Skinny.Route.Bands.{route-bands, route-unify_bands}
use v100_skinny_unify.Skinny.Layer.{
  Layer, Fresh, process_weights_after_loading, call_of, numel_or_zero, prepare, qpn_stash,
  skip_marlin_build, stash_once, stashing_prepare,
}
use v100_skinny_unify.Skinny.Layer.Copies.{Repacks, Recovers, process-Recovers, process_footprint}
use v100_skinny_unify.Skinny.SelfCheck.{
  State, init, Request, apply_weights, serve, eager_context, is_checked, is_skinny, operator,
  self_check,
}
use v100_skinny_unify.Skinny.SelfCheck.Globals.{Follows, serve-Follows, checked_within_tolerance}
use v100_skinny_unify.Skinny.SelfCheck.Failure.{AreFallbacks, serve_failed, failure_breaks_unify}
mod Serving
mod Logits

abbrev pub zeros : Buf
zeros = λ _. 0

abbrev pub bytes : Buf
bytes = λ i. i % 256

pub bytes-IsBytes : IsBytes bytes
bytes-IsBytes i = omega arith

unprepack-prepack_example :
    let (codes, scales) =
      unprepack 64 128
        (prepack_codes 2 8 128 bytes zeros)
        (prepack_scales 2 8 bytes zeros)
        zeros
        zeros in
    (codes 700 ≡ bytes 700) × (scales (50 * 8 + 5) ≡ bytes (50 * 8 + 5))
unfolding prepack
unprepack-prepack_example =
    unprepack-prepack 64 64 bytes bytes zeros zeros zeros zeros bytes-IsBytes refl 700 50 5
      (omega arith) (omega arith) (omega arith)

-- A layer with the packed copy and the marlin copy, 20 rows.
abbrev pub both : Call
both = record {
  m = 20;
  n = 64;
  k = 128;
  codes_numel = 4096;
  qpn_numel = 4096;
  marlin_numel = 4096;
  dtype = float16;
  capturing = false;
  skinny_ok = true;
}

label-kernel_example : label (kernel defaults both) ≡ qpn2mt
unfolding route kernel label plan_reconstruct route_of plan plan_qpn2 has_qpn within plan_mt tiled
    qpn2_cfg
label-kernel_example = label-kernel defaults both refl refl

kernel-IsServed_example : IsServed defaults both (kernel defaults both)
kernel-IsServed_example = kernel-IsServed defaults both refl (inl (omega arith))
