-- ===== src/Skinny/SelfCheck/Failure.antt =====
-- What runs after a failed self-check.
use v100_skinny_unify.Prelude.{ℕ, ◌≡◌, ap, ◌∙◌, Bool, true, false, arith, ◌⊎◌, List, [], ◌∷◌}
use v100_skinny_unify.Skinny.Env.{Env}
use v100_skinny_unify.Skinny.Route.{DType, Kernel, dense, kernel}
use v100_skinny_unify.Skinny.Route.Resident.{is_taken, kernel_after_failure, kernel_failed}
use v100_skinny_unify.Skinny.Layer.{Layer, call_of}
use v100_skinny_unify.Skinny.SelfCheck.{
  State, Request, operator, is_checked, self_check, is_skinny, apply_weights, serve,
}

module _ {X Y : Type 0} (e : Env) (linear : Kernel → Layer → X → Y) (marlin_apply : Layer → X → Y)
    (exceeds : Y → Y → Bool) where
  -- The results that the fallbacks give on a request.
  abbrev pub IsFallback : Request X → Y → Type 0
  IsFallback r y =
      (y ≡ marlin_apply r.layer r.x)
      ⊎ (y ≡ linear Kernel.marlin r.layer r.x)
      ⊎ (y ≡ linear dense r.layer r.x)

  apply_weights_failed :
      (s : State) (r : Request X)
      → s.skinny_ok ≡ false
      → IsFallback r (apply_weights e linear marlin_apply exceeds s r).0
        × ((apply_weights e linear marlin_apply exceeds s r).1 ≡ s)
  unfolding apply_weights is_checked operator
  apply_weights_failed s r failed =
      ground (arith, kernel_failed e (call_of r.layer r.rows r.dtype r.capturing s.skinny_ok))

  -- One result for each request, each of them from a fallback.
  abbrev pub AreFallbacks : List (Request X) → List Y → Type 0
  AreFallbacks [] [] = Unit {0}
  AreFallbacks (r ∷ rs) (y ∷ ys) = IsFallback r y × AreFallbacks rs ys
  AreFallbacks _ _ = ⊥

  -- From a failed self-check on, every call is answered by marlin or by the dense reconstruction.
  pub serve_failed :
      (s : State) (rs : List (Request X))
      → s.skinny_ok ≡ false
      → AreFallbacks rs (serve e linear marlin_apply exceeds s rs).0
  unfolding serve
  serve_failed s [] failed = tt
  serve_failed s (r ∷ rs) failed =
      let (first, same) = apply_weights_failed s r failed in
      let rest =
        serve_failed (apply_weights e linear marlin_apply exceeds s r).1 rs
          (ap (λ (t : State). t.skinny_ok) same ∙ failed) in
      (first, rest)

  failed :
      (s : State) (r : Request X)
      → is_skinny e linear marlin_apply exceeds r ≡ true
      → is_checked e linear marlin_apply exceeds s r ≡ true
      → exceeds (operator e linear marlin_apply exceeds s r) (marlin_apply r.layer r.x) ≡ true
      → (apply_weights e linear marlin_apply exceeds s r).1.skinny_ok ≡ false
  unfolding apply_weights self_check
  failed s r on checked mismatch = ground arith

  -- A failed check of one layer sends to the marlin kernel every call, of a layer without a
  -- marlin copy, that a kernel of the skinny path would take; that kernel reads the missing
  -- copy.
  pub failure_breaks_unify :
      (s : State) (r : Request X) (l : Layer) (m : ℕ) (dtype : DType) (capturing : Bool)
      → is_skinny e linear marlin_apply exceeds r ≡ true
      → is_checked e linear marlin_apply exceeds s r ≡ true
      → exceeds (operator e linear marlin_apply exceeds s r) (marlin_apply r.layer r.x) ≡ true
      → l.weight.numel ≡ 0
      → is_taken e (
          call_of l m dtype capturing (apply_weights e linear marlin_apply exceeds s r).1.skinny_ok)
        ≡ true
      → kernel e (
          call_of l m dtype capturing (apply_weights e linear marlin_apply exceeds s r).1.skinny_ok)
        ≡ Kernel.marlin
  failure_breaks_unify s r l m dtype capturing on checked mismatch none_left taken =
      kernel_after_failure e
        (call_of l m dtype capturing (apply_weights e linear marlin_apply exceeds s r).1.skinny_ok)
        (failed s r on checked mismatch) none_left taken
