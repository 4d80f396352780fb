-- ===== src/Skinny/Examples/Serving.antt =====
-- The loading of layers and the self-check at concrete inputs: a layer of 64 rows and 128 columns.
use v100_skinny_unify.Prelude.{
  ℕ, ◌+◌, ◌*◌, ◌<◌, ◌≡◌, ◌⊎◌, refl, Bool, true, false, not, none, List, [], ◌∷◌, map, ◌==◌, arith,
}
use v100_skinny_unify.Skinny.Env.{Env, defaults}
use v100_skinny_unify.Skinny.Prepack.{prepack}
use v100_skinny_unify.Skinny.Config.{qpn2_cfg}
use v100_skinny_unify.Skinny.Route.{
  float16, Kernel, dense, kernel, kernel_of, plan, has_qpn, plan_qpn2, tiled, within,
}
use v100_skinny_unify.Skinny.Layer.{
  Layer, Fresh, process_weights_after_loading, call_of, prepare, qpn_stash, skip_marlin_build,
  stash_once, stashing_prepare,
}
use v100_skinny_unify.Skinny.Layer.Copies.{Repacks, Recovers, process-Recovers}
use v100_skinny_unify.Skinny.SelfCheck.{
  init, Request, apply_weights, eager_context, is_checked, is_skinny, operator, self_check, serve,
}
use v100_skinny_unify.Skinny.SelfCheck.Settles.{on, unchecked, number_checked, settled}
use v100_skinny_unify.Skinny.SelfCheck.Failure.{failure_breaks_unify}
use v100_skinny_unify.Skinny.Examples.{zeros, bytes, bytes-IsBytes}

-- The path on, with one resident copy.
abbrev unified : Env
unified = record defaults { skinny_enabled = true; skinny_unify = true; qpn_drop_ct = true }

abbrev loaded : Layer
loaded = record {
  n = 64;
  k2 = 64;
  weight = record { numel = 4096; at = bytes };
  weight_scale = record { numel = 512; at = bytes };
  weight_is_uint8 = true;
  has_workspace = false;
  stash = none;
}

abbrev fresh : Fresh
fresh = record { codes = zeros; scales = zeros }

-- A repacking that adds a workspace.
abbrev repack : Layer → Layer
repack l = record l { has_workspace = true }

repack-Repacks : Repacks repack
repack-Repacks = record { keeps_stash = λ l. refl; keeps_weight = λ l h. h }

abbrev processed : Layer
processed = process_weights_after_loading unified fresh repack loaded

process-Recovers_example :
    (0 < processed.weight.numel) ⊎ Recovers loaded zeros zeros 700 50 5 processed.stash
process-Recovers_example =
    process-Recovers unified fresh repack loaded zeros zeros 700 50 5 repack-Repacks refl
      bytes-IsBytes (omega arith) (omega arith) (omega arith) (omega arith)

-- Kernels on one number: each of them but the dense one doubles it, marlin too.
abbrev linear : Kernel → Layer → ℕ → ℕ
linear dense l x = 2 * x + 1
linear _ l x = 2 * x

abbrev marlin_apply : Layer → ℕ → ℕ
marlin_apply l x = 2 * x

abbrev differs : ℕ → ℕ → Bool
differs y y_ref = not (y == y_ref)

-- A layer with all its copies, called with 4 rows.
abbrev request : Request ℕ
request = record {
  layer =
      process_weights_after_loading (record defaults { skinny_enabled = true }) fresh repack loaded;
  x = 21;
  rows = 4;
  dtype = float16;
  compiling = false;
  capturing = false;
}

abbrev enabled : Env
enabled = record defaults { skinny_enabled = true }

-- A kernel that is off by one.
abbrev off_by_one : Kernel → Layer → ℕ → ℕ
off_by_one k l x = 2 * x + 1

failure_breaks_unify_example :
    kernel enabled (call_of processed 5 float16 true false) ≡ Kernel.marlin
unfolding apply_weights is_skinny process_weights_after_loading prepare stashing_prepare stash_once
    qpn_stash is_checked eager_context operator prepack skip_marlin_build plan_qpn2 has_qpn within
    tiled qpn2_cfg self_check
failure_breaks_unify_example =
    failure_breaks_unify enabled off_by_one marlin_apply differs init request processed 5 float16
      true refl refl refl refl refl

request-agrees :
    differs
      (unchecked enabled linear marlin_apply differs request)
      (marlin_apply request.layer request.x)
    ≡ false
unfolding is_skinny process_weights_after_loading prepare stashing_prepare stash_once qpn_stash
    prepack skip_marlin_build plan_qpn2 has_qpn within tiled qpn2_cfg kernel kernel_of plan
request-agrees = refl

checks_number :
    number_checked enabled linear marlin_apply differs (request ∷ request ∷ request ∷ []) ≡ 3
unfolding is_skinny process_weights_after_loading prepare stashing_prepare stash_once qpn_stash
    prepack skip_marlin_build eager_context
checks_number = refl

abbrev requests : List (Request ℕ)
requests = request ∷ request ∷ request ∷ []

settled_example :
    (serve enabled linear marlin_apply differs init requests
      ≡ (map (unchecked enabled linear marlin_apply differs) requests, on 3))
    × (apply_weights enabled linear marlin_apply differs
          (serve enabled linear marlin_apply differs init requests).1
          request
        ≡ (unchecked enabled linear marlin_apply differs request, on 3))
settled_example =
    settled enabled linear marlin_apply differs requests request
      ((λ can. request-agrees), ((λ can. request-agrees), ((λ can. request-agrees), tt)))
      (omega (arith, checks_number))
