-- ===== src/Skinny/SelfCheck/Settles.antt =====
-- The calls that are checked come to an end.
use v100_skinny_unify.Prelude.{
  ℕ, ◌+◌, ◌≤◌, ◌<◌, min, ◌≡◌, refl, ap, ◌∙◌, Bool, true, false, List, [], ◌∷◌, ltb, leb, ◌&&◌, map,
  if◌then◌else◌, arith, Bool-cases, lt-cases, inl, inr,
}
use v100_skinny_unify.Skinny.Env.{Env}
use v100_skinny_unify.Skinny.Route.{Kernel, kernel}
use v100_skinny_unify.Skinny.Layer.{Layer, call_of}
use v100_skinny_unify.Skinny.SelfCheck.{
  State, init, Request, eager_context, operator, is_checked, self_check, is_skinny, apply_weights,
  serve,
}

-- The kernels on, after so many checks.
abbrev pub on : ℕ → State
on d = record { skinny_ok = true; self_checks_done = d }

module _ {X Y : Type 0} (e : Env) (linear : Kernel → Layer → X → Y) (marlin_apply : Layer → X → Y)
    (exceeds : Y → Y → Bool) where
  -- A call that is compared with marlin while checks are left.
  abbrev pub can_be_checked : Request X → Bool
  can_be_checked r =
      is_skinny e linear marlin_apply exceeds r
      && eager_context r
      && leb r.rows e.skinny_max_m
      && ltb 0 r.layer.weight.numel

  abbrev pub number_checked : List (Request X) → ℕ
  number_checked [] = 0
  number_checked (r ∷ rs) =
      let rest = number_checked rs in if can_be_checked r then rest + 1 else rest

  -- What a layer answers without a check.
  abbrev pub unchecked : Request X → Y
  unchecked r =
      if is_skinny e linear marlin_apply exceeds r
      then linear (kernel e (call_of r.layer r.rows r.dtype r.capturing true)) r.layer r.x
      else marlin_apply r.layer r.x

  -- Every call that can be checked is within the tolerance.
  abbrev pub Agree : List (Request X) → Type 0
  Agree [] = Unit {0}
  Agree (r ∷ rs) =
      (can_be_checked r ≡ true → exceeds (unchecked r) (marlin_apply r.layer r.x) ≡ false)
      × Agree rs

  counted :
      (d : ℕ) (r : Request X)
      → d < 3
      → can_be_checked r ≡ true
      → exceeds (unchecked r) (marlin_apply r.layer r.x) ≡ false
      → apply_weights e linear marlin_apply exceeds (on d) r ≡ (unchecked r, on (d + 1))
  unfolding apply_weights is_checked self_check operator
  counted d r left can agrees = ground arith

  finished :
      (d : ℕ) (r : Request X)
      → 3 ≤ d
      → apply_weights e linear marlin_apply exceeds (on d) r ≡ (unchecked r, on d)
  unfolding apply_weights is_checked operator
  finished d r none_left = ground arith

  skipped :
      (d : ℕ) (r : Request X)
      → can_be_checked r ≡ false
      → apply_weights e linear marlin_apply exceeds (on d) r ≡ (unchecked r, on d)
  unfolding apply_weights is_checked operator
  skipped d r never = ground arith

  answers :
      (d : ℕ) (rs : List (Request X))
      → d ≤ 3
      → Agree rs
      → serve e linear marlin_apply exceeds (on d) rs
        ≡ (map unchecked rs, on (min 3 (d + number_checked rs)))
  unfolding serve
  answers d [] small agree = let same : d ≡ min 3 (d + 0) = omega arith in ap (λ n. ([], on n)) same
  answers d (r ∷ rs) small agree = elim (Bool-cases (can_be_checked r)) [
    | inl can ↦ elim (lt-cases d 3 small) [
      | inl all ↦
          let here = finished d r (omega (arith, all)) in
          let there = answers d rs small agree.1 in
          let same : min 3 (d + number_checked rs) ≡ min 3 (d + (number_checked rs + 1)) =
            omega (arith, all) in
          rw (here, there, can) (ap (λ n. (map unchecked (r ∷ rs), on n)) same)
      | inr left ↦
          let here = counted d r left can (agree.0 can) in
          let there = answers (d + 1) rs (omega arith) agree.1 in
          let same : min 3 (d + 1 + number_checked rs) ≡ min 3 (d + (number_checked rs + 1)) =
            omega arith in
          rw (here, there, can) (ap (λ n. (map unchecked (r ∷ rs), on n)) same)
    ]
    | inr never ↦
        let here = skipped d r never in
        let there = answers d rs small agree.1 in rw (here, there, never) refl
  ]

  -- Checking ends: after calls that are all within the tolerance, of which three can be checked, every
  -- further call, of any layer and with any result, is answered without a check by the kernel that is
  -- chosen with the skinny path on, or by marlin where the path is not for it, and leaves the globals
  -- as they are; and the calls before it were answered in the same way.
  pub settled :
      (rs : List (Request X)) (r : Request X)
      → Agree rs
      → 3 ≤ number_checked rs
      → (serve e linear marlin_apply exceeds init rs ≡ (map unchecked rs, on 3))
        × (apply_weights e linear marlin_apply exceeds
              (serve e linear marlin_apply exceeds init rs).1
              r
            ≡ (unchecked r, on 3))
  settled rs r agree enough =
      let same : min 3 (0 + number_checked rs) ≡ 3 = omega arith in
      let served : serve e linear marlin_apply exceeds init rs ≡ (map unchecked rs, on 3) =
        answers 0 rs (omega arith) agree ∙ ap (λ n. (map unchecked rs, on n)) same in
      (
        served,
        ap (λ p. apply_weights e linear marlin_apply exceeds p.1 r) served
            ∙ finished 3 r (omega arith),
      )
