-- ===== src/Skinny/SelfCheck.antt =====
-- `apply_weights` and `_eager_context` of fork_patches/marlin.py: the first calls are compared with
-- marlin, and a mismatch turns the skinny kernels off for good. The kernels, the marlin reference
-- and the comparison of their outputs are arguments: they run outside this repository's Python.
pub mod Globals
pub mod Failure
pub mod Settles
use v100_skinny_unify.Prelude.{
  ℕ, ◌+◌, Bool, true, false, not, List, [], ◌∷◌, ltb, leb, ◌&&◌, if◌then◌else◌,
}
use v100_skinny_unify.Skinny.Env.{Env}
use v100_skinny_unify.Skinny.Route.{DType, Kernel, is_float16, kernel}
use v100_skinny_unify.Skinny.Layer.{Layer, has_stash, call_of}

-- The module's globals `_skinny_ok` and `_self_checks_done`.
pub record State : Type 0 where
  pub skinny_ok : Bool
  pub self_checks_done : ℕ

abbrev pub init : State
init = record { skinny_ok = true; self_checks_done = 0 }

abbrev pub self_check_calls : ℕ
self_check_calls = 3

-- One call of a layer: its input, the number of rows of the input, and the context of the call.
pub record Request (X : Type 0) : Type 0 where
  pub layer : Layer
  pub x : X
  pub rows : ℕ
  pub dtype : DType
  pub compiling : Bool
  pub capturing : Bool

unfoldable pub eager_context : {X : Type 0} → Request X → Bool
eager_context r = if r.compiling then false else not r.capturing

-- `linear` is the chosen kernel on the layer and the input, `marlin_apply` is `_marlin_apply`, both
-- with the bias added; `exceeds y y_ref` is `rel > _SELF_CHECK_TOL`.
module _ {X Y : Type 0} (e : Env) (linear : Kernel → Layer → X → Y) (marlin_apply : Layer → X → Y)
    (exceeds : Y → Y → Bool) where
  -- torch.ops.skinny_nvfp4.linear
  unfoldable pub operator : State → Request X → Y
  operator s r =
      linear (kernel e (call_of r.layer r.rows r.dtype r.capturing s.skinny_ok)) r.layer r.x

  unfoldable pub is_checked : State → Request X → Bool
  is_checked s r =
      ltb s.self_checks_done self_check_calls
      && eager_context r
      && s.skinny_ok
      && leb r.rows e.skinny_max_m
      && ltb 0 r.layer.weight.numel

  unfoldable pub self_check : State → Request X → Y → Y × State
  self_check s r y =
      let y_ref = marlin_apply r.layer r.x in
      let counted = record s { self_checks_done = s.self_checks_done + 1 } in
      if exceeds y y_ref then (y_ref, record counted { skinny_ok = false }) else (y, counted)

  -- `_SKINNY_ENABLED and hasattr(layer, "skinny_codes") and x.dtype == torch.half`
  unfoldable pub is_skinny : Request X → Bool
  is_skinny r = e.skinny_enabled && has_stash r.layer.stash && is_float16 r.dtype

  unfoldable pub apply_weights : State → Request X → Y × State
  apply_weights s r =
      if not (is_skinny r)
      then (marlin_apply r.layer r.x, s)
      else if is_checked s r
      then self_check s r (operator s r)
      else (operator s r, s)

  -- Calls one after another, with their results.
  unfoldable pub serve : State → List (Request X) → List Y × State
  serve s [] = ([], s)
  serve s (r ∷ rs) = let (y, s') = apply_weights s r in let (ys, s'') = serve s' rs in (y ∷ ys, s'')
