-- ===== src/Skinny/Route/Naming.antt =====
-- The route map against the kernel that runs.
use v100_skinny_unify.Prelude.{
  if◌then◌else◌, ap, ◌∙◌, ◌≡◌, Bool, true, false, not, none, arith, ◌&&◌,
}
use v100_skinny_unify.Skinny.Env.{Env}
use v100_skinny_unify.Skinny.Route.{
  Call, Plan, dense, recon, wmma_recon, dense_ok, wmma_ok, plan_reconstruct, plan_unify_dense, plan,
  route_of, fallback, after_mt, after_qpn2, kernel_of, route, kernel, label,
}

label-after_mt :
    (p : Plan)
    → p.qpn2 ≡ none
    → p.mt ≡ none
    → (p.use_reconstruct && not p.u_wmma_ok && not p.unify_dense) ≡ false
    → label (after_mt true p) ≡ route_of p
unfolding label after_mt fallback route_of
label-after_mt p a b h = ground arith

label-kernel_of :
    (p : Plan)
    → (p.use_reconstruct && not p.u_wmma_ok && not p.unify_dense) ≡ false
    → label (kernel_of true p p.qpn2) ≡ route_of p
unfolding label kernel_of after_qpn2 route_of after_mt fallback
label-kernel_of p h = ground (arith, label-after_mt p)

-- The reconstruction that neither tensor-core path can serve.
unserved :
    (e : Env) (c : Call)
    → (plan_reconstruct e c && not (wmma_ok e c) && not (dense_ok e c)) ≡ false
    → (plan_reconstruct e c && not (wmma_ok e c) && not (plan_unify_dense e c)) ≡ false
unfolding plan_unify_dense
unserved e c h = ground arith

-- The route map names the kernel that runs, while the self-check has not failed, unless the call
-- is a reconstruction whose shape the wmma kernel does not take and which is no half-precision
-- call outside a graph capture.
pub label-kernel :
    (e : Env) (c : Call)
    → c.skinny_ok ≡ true
    → (plan_reconstruct e c && not (wmma_ok e c) && not (dense_ok e c)) ≡ false
    → label (kernel e c) ≡ route e c
unfolding kernel route plan
label-kernel e c ok h =
    let p = plan e c in
    ap (λ b. label (kernel_of b p p.qpn2)) ok ∙ label-kernel_of p (unserved e c h)

-- A reconstruction is a call that no kernel of the skinny path takes.
pub record IsAlone (p : Plan) : Type 0 where
  pub no_qpn2 : p.qpn2 ≡ none
  pub no_mt : p.mt ≡ none
  pub no_qpn : p.use_qpn ≡ false
  pub no_qpn1 : p.use_qpn1 ≡ false
  pub no_simt : p.use_simt ≡ false
  pub no_wmma : p.use_wmma ≡ false

pub plan_reconstruct-IsAlone :
    (e : Env) (c : Call) → plan_reconstruct e c ≡ true → IsAlone (plan e c)
unfolding plan plan_reconstruct
plan_reconstruct-IsAlone e c h = ground arith

pub kernel_of_alone : (ok : Bool) (p : Plan) → IsAlone p → kernel_of ok p p.qpn2 ≡ fallback p
unfolding kernel_of after_qpn2 after_mt
kernel_of_alone ok p a = ground arith

pub route_of_alone :
    (p : Plan)
    → IsAlone p
    → p.use_reconstruct ≡ true
    → route_of p ≡ (if p.unify_dense then recon else wmma_recon)
unfolding route_of
route_of_alone p a h = ground arith

-- For a reconstruction whose shape the wmma kernel does not take, and which is no half-precision
-- call outside a graph capture, the route map says `wmma_recon`, and the dense weight is
-- reconstructed.
pub label-kernel_unserved :
    (e : Env) (c : Call)
    → plan_reconstruct e c ≡ true
    → wmma_ok e c ≡ false
    → dense_ok e c ≡ false
    → (route e c ≡ wmma_recon) × (kernel e c ≡ dense)
unfolding kernel route plan_unify_dense fallback
label-kernel_unserved e c r w d =
    let alone = plan_reconstruct-IsAlone e c r in
    (
      route_of_alone (plan e c) alone (unfold plan in r) ∙ (unfold plan in ground arith),
      kernel_of_alone c.skinny_ok (plan e c) alone ∙ (unfold plan in ground arith),
    )
