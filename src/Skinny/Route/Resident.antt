-- ===== src/Skinny/Route/Resident.antt =====
-- After a failed self-check every call goes to the fallbacks, whatever copy its layer holds.
use v100_skinny_unify.Prelude.{inl, inr, ◌⊎◌, ◌≡◌, ap, ◌∙◌, Bool, true, false, Option, arith, ◌||◌}
use v100_skinny_unify.Skinny.Env.{Env}
use v100_skinny_unify.Skinny.Config.{Geometry}
use v100_skinny_unify.Skinny.Route.{
  Call, Plan, marlin, dense, wmma_ok, plan_qpn2, plan_mt, plan_qpn, plan_qpn1, plan_simt, plan_wmma,
  plan_reconstruct, plan_dense, plan, is_some, fallback, after_mt, after_qpn2, kernel_of, kernel,
}

kernel_of_failed : (p : Plan) (q : Option Geometry) → kernel_of false p q ≡ fallback p
unfolding kernel_of after_qpn2 after_mt
kernel_of_failed p q = ground arith

-- The calls that a kernel of the skinny path would take.
abbrev pub is_taken : Env → Call → Bool
is_taken e c =
    is_some (plan_qpn2 e c)
    || is_some (plan_mt e c)
    || plan_qpn e c
    || plan_qpn1 e c
    || plan_simt e c
    || plan_wmma e c

fallback_taken :
    (e : Env) (c : Call) → c.marlin_numel ≡ 0 → is_taken e c ≡ true → fallback (plan e c) ≡ marlin
unfolding fallback plan plan_reconstruct plan_dense
fallback_taken e c m t = ground arith

-- Once the self-check has failed, a call of the skinny path's bands on a layer that has no marlin
-- copy is sent to the marlin kernel, which reads that copy.
pub kernel_after_failure :
    (e : Env) (c : Call)
    → c.skinny_ok ≡ false
    → c.marlin_numel ≡ 0
    → is_taken e c ≡ true
    → kernel e c ≡ marlin
unfolding kernel
kernel_after_failure e c failed m t =
    let p = plan e c in
    ap (λ b. kernel_of b p p.qpn2) failed ∙ kernel_of_failed p p.qpn2 ∙ fallback_taken e c m t

fallback_failed :
    (e : Env) (c : Call)
    → c.skinny_ok ≡ false
    → (fallback (plan e c) ≡ marlin) ⊎ (fallback (plan e c) ≡ dense)
unfolding fallback plan wmma_ok
fallback_failed e c failed = ground arith

-- Once the self-check has failed, no kernel of the skinny path runs.
pub kernel_failed :
    (e : Env) (c : Call) → c.skinny_ok ≡ false → (kernel e c ≡ marlin) ⊎ (kernel e c ≡ dense)
unfolding kernel
kernel_failed e c failed =
    let p = plan e c in
    let f = ap (λ b. kernel_of b p p.qpn2) failed ∙ kernel_of_failed p p.qpn2 in
    elim (fallback_failed e c failed) [ inl h ↦ inl (f ∙ h) | inr h ↦ inr (f ∙ h) ]
