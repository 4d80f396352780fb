-- ===== src/Skinny/LmHead/Takes.antt =====
-- What the kernels that the lm_head launches may rely on.
use v100_skinny_unify.Prelude.{
  ℕ, ◌%◌, ◌≤◌, ◌≡◌, refl, sym, ap, ◌∙◌, ◌↔◌, ◌⊎◌, true, Option, none, some, List, arith,
}
use mathlib.Core.Path.{subst}
use v100_skinny_unify.Tensor.{Tensor}
use v100_skinny_unify.Skinny.Config.{Geometry}
use v100_skinny_unify.Skinny.Config.Laws.{IsGeometry, qpn2_cfg-IsGeometry}
use v100_skinny_unify.Skinny.Layer.{Fresh}
use v100_skinny_unify.Skinny.Wmma.{wmma_takes}
use v100_skinny_unify.Skinny.Wmma.Laws.{wmma_takes_tiled}
use v100_skinny_unify.Skinny.LmHead.{
  HeadEnv, Head, Hidden, Answer, original, head_shape, ct_kernel, lm_cfg, embed_apply, after_calls,
  embed_pw,
}
use v100_skinny_unify.Skinny.LmHead.Uncached.{codes_of, packed_of, answer_with, answer_on}
use v100_skinny_unify.Skinny.LmHead.Cache.{calls-answer}
use v100_skinny_unify.Skinny.LmHead.Rows.{head_shape-tiled}

-- For a call of `m` rows on a weight of n rows and k columns.
abbrev pub Takes : ℕ → ℕ → ℕ → Answer → Type 0
Takes m n k original = Unit {0}
Takes m n k (Answer.gemm_qpn2 g q) = (1 ≤ m) × (m ≤ 8) × IsGeometry k g
Takes m n k (Answer.gemm_simt p) = (m ≤ 7) × (k % 128 ≡ 0) × (n % 8 ≡ 0)
Takes m n k (Answer.gemm_wmma p) =
    (8 ≤ m) × (m ≤ 64) × ((wmma_takes m n k ≡ true) ↔ (17 ≤ m) ⊎ (k % 256 ≡ 0))

ct_kernel-Takes :
    (m n k : ℕ) (p : Tensor × Tensor)
    → m ≤ 64
    → k % 128 ≡ 0
    → n % 64 ≡ 0
    → Takes m n k (ct_kernel m p)
unfolding ct_kernel
ct_kernel-Takes m n k p few hk hn = ground (arith, wmma_takes_tiled m n k hk hn)

module _ {W : Type 0} (e : HeadEnv) (fresh : Fresh) (pack : W → Tensor × Tensor) where
  lm_cfg-fits :
      (m n k : ℕ) (g : Geometry)
      → lm_cfg e fresh pack m n k ≡ some g
      → (1 ≤ m) × (m ≤ 8) × IsGeometry k g
  unfolding lm_cfg
  lm_cfg-fits m n k (s, a) h = ground (arith, qpn2_cfg-IsGeometry k n s a)

  answer_with-Takes :
      (m n k : ℕ) (o : Option Geometry) (p : Tensor × Tensor) (q : Option (Tensor × Tensor))
      → lm_cfg e fresh pack m n k ≡ o
      → m ≤ 64
      → k % 128 ≡ 0
      → n % 64 ≡ 0
      → Takes m n k (answer_with e fresh pack m o p q)
  answer_with-Takes m n k none p q cfg few hk hn = ct_kernel-Takes m n k p few hk hn
  answer_with-Takes m n k (some g) p none cfg few hk hn = ct_kernel-Takes m n k p few hk hn
  answer_with-Takes m n k (some g) p (some q) cfg few hk hn = lm_cfg-fits m n k g cfg

  answer_on-Takes :
      (x : Hidden) (n k : ℕ) (h : Head W)
      → k % 128 ≡ 0
      → n % 64 ≡ 0
      → Takes x.m n k (answer_on e fresh pack x h (some (n, k)))
  answer_on-Takes x n k h hk hn = ground (
    arith,
    answer_with-Takes x.m n k (lm_cfg e fresh pack x.m n k) (codes_of e fresh pack n k h)
        (packed_of e fresh pack n k h) refl,
  )

  -- What a call of the lm_head launches, whichever calls came before, if the weight passes the
  -- tests on its shape: the QPN2 kernel for 1 to 8 rows with a geometry that fits, the simt kernel
  -- for at most 7 with k % 128 == 0 and n % 8 == 0, or the wmma kernel for 8 to 64, whose launch
  -- checks pass exactly for more than 16 rows or k % 256 == 0.
  pub calls-Takes :
      (h : Head W) (n k : ℕ) (xs : List Hidden) (x : Hidden)
      → head_shape h.shape ≡ some (n, k)
      → Takes x.m n k
          (embed_apply e fresh pack (after_calls e fresh pack (embed_pw e fresh pack h) xs) x).1
  calls-Takes h n k xs x fits =
      let (hk, hn) = head_shape-tiled h.shape n k fits in
      subst (Takes x.m n k)
        (sym (calls-answer e fresh pack h xs x ∙ ap (answer_on e fresh pack x h) fits))
        (answer_on-Takes x n k h hk hn)
