-- ===== src/Skinny/LmHead/Rows.antt =====
-- The drafter calls the lm_head with one row and the verifier with a few: which kernel each gets.
use v100_skinny_unify.Prelude.{
  ℕ, ◌/◌, ◌%◌, ◌≤◌, ◌≡◌, ◌≢◌, refl, sym, ap, ap₂, ◌∙◌, true, false, Option, none, some, List, arith,
}
use mathlib.Core.Path.{subst}
use v100_skinny_unify.Tensor.{Buf, Tensor}
use v100_skinny_unify.Skinny.Config.{Geometry, qpn2_cfg}
use v100_skinny_unify.Skinny.Config.Laws.{IsGeometry, qpn2_cfg-IsGeometry, qpn2_cfg-none}
use v100_skinny_unify.Skinny.Prepack.{prepack}
use v100_skinny_unify.Skinny.Layer.{Fresh}
use v100_skinny_unify.Skinny.Route.{is_float16}
use v100_skinny_unify.Skinny.LmHead.{
  HeadEnv, Head, Hidden, Answer, head_shape, lm_cfg, embed_apply, after_calls, embed_pw,
}
use v100_skinny_unify.Skinny.LmHead.Uncached.{
  codes_of, packed_or, packed_of, answer_with, answer_on, answer,
}
use v100_skinny_unify.Skinny.LmHead.Cache.{calls-answer}

-- A half-precision call without bias of 1 to 8 rows.
pub record IsDecode (x : Hidden) : Type 0 where
  pub half : is_float16 x.dtype ≡ true
  pub no_bias : x.has_bias ≡ false
  pub some_row : 1 ≤ x.m
  pub few : x.m ≤ 8

-- The launch of the QPN2 kernel with a geometry that fits the weight.
abbrev pub IsQpn2 : ℕ → Answer → Type 0
IsQpn2 k (Answer.gemm_qpn2 g q) = IsGeometry k g
IsQpn2 k _ = ⊥

pub head_shape-tiled :
    (shape : Option (List ℕ)) (n k : ℕ)
    → head_shape shape ≡ some (n, k)
    → (k % 128 ≡ 0) × (n % 64 ≡ 0)
unfolding head_shape
head_shape-tiled shape n k h = ground arith

some_of : {A : Type 0} (o : Option A) → o ≢ none → (a : A) × (o ≡ some a)
some_of none h = absurd (h refl)
some_of (some a) h = (a, refl)

chosen : (n k : ℕ) → k % 128 ≡ 0 → (g : Geometry) × (qpn2_cfg k n ≡ some g)
chosen n k h = some_of (qpn2_cfg k n) λ e. (qpn2_cfg-none k n).0 e (omega arith)

packs :
    (n k : ℕ) (codes scales qc₀ qs₀ : Buf)
    → k % 128 ≡ 0
    → n % 64 ≡ 0
    → prepack n (k / 2) codes scales qc₀ qs₀ ≢ none
unfolding prepack
packs n k codes scales qc₀ qs₀ hk hn = ground arith

module _ {W : Type 0} (e : HeadEnv) (fresh : Fresh) (pack : W → Tensor × Tensor) where
  -- The packed copy that a call makes of a layer without one.
  packed_of-some :
      (n k : ℕ) (h : Head W)
      → k % 128 ≡ 0
      → n % 64 ≡ 0
      → h.qpn ≡ none
      → (q : Tensor × Tensor) × (packed_of e fresh pack n k h ≡ some q)
  packed_of-some n k h hk hn absent =
      let p = codes_of e fresh pack n k h in
      some_of (packed_of e fresh pack n k h) λ is_none.
        packs n k p.0.at p.1.at fresh.codes fresh.scales hk hn
          (sym (ap (packed_or e fresh pack n k p) absent) ∙ is_none)

  lm_cfg-decode :
      (m n k : ℕ)
      → e.qpn_lmhead ≡ true
      → e.qpn2_enabled ≡ true
      → k % 128 ≡ 0
      → n % 64 ≡ 0
      → 1 ≤ m
      → m ≤ 8
      → lm_cfg e fresh pack m n k ≡ qpn2_cfg k n
  unfolding lm_cfg
  lm_cfg-decode m n k on on2 hk hn lo hi = ground arith

  answer_on-decode :
      (x : Hidden) (n k : ℕ) (h : Head W)
      → IsDecode x
      → answer_on e fresh pack x h (some (n, k))
        ≡ answer_with e fresh pack x.m
            (lm_cfg e fresh pack x.m n k)
            (codes_of e fresh pack n k h)
            (packed_of e fresh pack n k h)
  answer_on-decode x n k h d = ground (arith, d.half, d.no_bias, d.few)

  module _ (h : Head W) (n k : ℕ) (fits : head_shape h.shape ≡ some (n, k))
      (on : e.qpn_lmhead ≡ true) (on2 : e.qpn2_enabled ≡ true) (absent : h.qpn ≡ none) where
    -- The one launch of every such call.
    shared_launch :
        (g : Geometry) × (q : Tensor × Tensor) × IsGeometry k g
        × ((x : Hidden) → IsDecode x → answer e fresh pack h x ≡ Answer.gemm_qpn2 g q)
    shared_launch =
        let (hk, hn) = head_shape-tiled h.shape n k fits in
        let (g, eg) = chosen n k hk in
        let (q, eq) = packed_of-some n k h hk hn absent in
        (
          g,
          q,
          qpn2_cfg-IsGeometry k n g.0 g.1 eg,
          λ x d.
              ap (answer_on e fresh pack x h) fits
              ∙ answer_on-decode x n k h d
              ∙ ap₂ (λ o r. answer_with e fresh pack x.m o (codes_of e fresh pack n k h) r)
                  (lm_cfg-decode x.m n k on on2 hk hn d.some_row d.few ∙ eg) eq,
        )

    -- A half-precision call without bias of 1 to 8 rows launches the QPN2 kernel with a geometry
    -- that fits the weight, and any two such calls of a layer launch it alike, whichever calls came
    -- before, so that the drafter's row and the verifier's rows are computed by one kernel: if the
    -- weight passes the tests on its shape, both switches are on, and the layer starts without a
    -- packed copy.
    pub same_launch :
        (xs xs' : List Hidden) (x x' : Hidden)
        → IsDecode x
        → IsDecode x'
        → let start = embed_pw e fresh pack h in
          let a = (embed_apply e fresh pack (after_calls e fresh pack start xs) x).1 in
          let a' = (embed_apply e fresh pack (after_calls e fresh pack start xs') x').1 in
          IsQpn2 k a × (a ≡ a')
    same_launch xs xs' x x' d d' =
        let (g, q, fit, all) = shared_launch in
        let first = calls-answer e fresh pack h xs x ∙ all x d in
        (
          subst (IsQpn2 k) (sym first) fit,
          first ∙ sym (calls-answer e fresh pack h xs' x' ∙ all x' d'),
        )
