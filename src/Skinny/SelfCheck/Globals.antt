-- ===== src/Skinny/SelfCheck/Globals.antt =====
-- What happens to the globals over any sequence of calls.
use v100_skinny_unify.Prelude.{
  ◌≤◌, max, ◌≡◌, refl, ◌∙◌, Bool, true, false, List, [], ◌∷◌, arith, ◌⊎◌, inl, inr,
}
use v100_skinny_unify.Skinny.Env.{Env}
use v100_skinny_unify.Skinny.Route.{Kernel}
use v100_skinny_unify.Skinny.Layer.{Layer}
use v100_skinny_unify.Skinny.SelfCheck.{
  State, Request, self_check_calls, is_checked, self_check, is_skinny, apply_weights, serve,
}

-- Checks are counted up to the limit, and a failure is final.
pub record Follows (s s' : State) : Type 0 where
  pub grows : s.self_checks_done ≤ s'.self_checks_done
  pub capped : s'.self_checks_done ≤ max s.self_checks_done self_check_calls
  pub sticky : (s.skinny_ok ≡ true) ⊎ (s' ≡ s)

Follows-refl : (s : State) → Follows s s
Follows-refl s = record { grows = omega arith; capped = omega arith; sticky = inr refl }

Follows-trans : {s t u : State} → Follows s t → Follows t u → Follows s u
Follows-trans f g = record {
  grows = omega arith;
  capped = omega arith;
  sticky = sticky_trans f.sticky g.sticky;
}
  where
    sticky_trans :
        {a b c : State}
        → (a.skinny_ok ≡ true) ⊎ (b ≡ a)
        → (b.skinny_ok ≡ true) ⊎ (c ≡ b)
        → (a.skinny_ok ≡ true) ⊎ (c ≡ a)
    sticky_trans (inl p) q = inl p
    sticky_trans (inr p) (inl q) = inl (cc)
    sticky_trans (inr p) (inr q) = inr (q ∙ p)

module _ {X Y : Type 0} (e : Env) (linear : Kernel → Layer → X → Y) (marlin_apply : Layer → X → Y)
    (exceeds : Y → Y → Bool) where
  apply_weights-Follows :
      (s : State) (r : Request X) → Follows s (apply_weights e linear marlin_apply exceeds s r).1
  unfolding apply_weights self_check is_checked
  apply_weights-Follows s r = ground arith

  -- Over any calls the number of checks does not fall and passes neither 3 nor its first value, and
  -- once the self-check has failed nothing changes any more.
  pub serve-Follows :
      (s : State) (rs : List (Request X)) → Follows s (serve e linear marlin_apply exceeds s rs).1
  unfolding serve
  serve-Follows s [] = Follows-refl s
  serve-Follows s (r ∷ rs) =
      Follows-trans (apply_weights-Follows s r)
        (serve-Follows (apply_weights e linear marlin_apply exceeds s r).1 rs)

  -- The result of a checked call is within the tolerance of the marlin reference, whether the check
  -- passes or fails, if a result is within the tolerance of itself.
  pub checked_within_tolerance :
      (s : State) (r : Request X)
      → ((y : Y) → exceeds y y ≡ false)
      → is_skinny e linear marlin_apply exceeds r ≡ true
      → is_checked e linear marlin_apply exceeds s r ≡ true
      → exceeds (apply_weights e linear marlin_apply exceeds s r).0 (marlin_apply r.layer r.x)
        ≡ false
  unfolding apply_weights self_check
  checked_within_tolerance s r reflexive on checked =
      ground (arith, reflexive (marlin_apply r.layer r.x))
