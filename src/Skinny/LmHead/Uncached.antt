-- ===== src/Skinny/LmHead/Uncached.antt =====
-- The lm_head without its caches: what a call answers, from what the layer held before it, and what
-- a call may not change.
use v100_skinny_unify.Prelude.{
  ℕ, ◌/◌, ◌≡◌, refl, sym, ap, ap₂, ◌∙◌, not, Option, none, some, ltb, ◌||◌, if◌then◌else◌, arith,
}
use mathlib.Core.Path.{subst}
use v100_skinny_unify.Prelude.Options.{◌>>=◌}
use v100_skinny_unify.Tensor.{Tensor}
use v100_skinny_unify.Skinny.Config.{Geometry}
use v100_skinny_unify.Skinny.Prepack.{prepack}
use v100_skinny_unify.Skinny.Layer.{Fresh}
use v100_skinny_unify.Skinny.Route.{is_float16}
use v100_skinny_unify.Skinny.LmHead.{
  HeadEnv, Head, Hidden, Answer, original, head_shape, ct_kernel, or_pack, shard_of, load_native,
  ensure_codes, lm_cfg, ensure_qpn, qpn_launch, launch, with_codes, on_shape,
}

module _ {W : Type 0} (e : HeadEnv) (fresh : Fresh) (pack : W → Tensor × Tensor) where
  -- The codes that the layer has, or else those that a call would load.
  abbrev pub codes_or : W → ℕ → ℕ → Option (Tensor × Tensor) → Tensor × Tensor
  codes_or w n k none =
      if e.native then or_pack e fresh pack w (e.path >>= shard_of e.rank n k) else pack w
  codes_or w n k (some p) = p

  abbrev pub packed_or :
      ℕ → ℕ → Tensor × Tensor → Option (Option (Tensor × Tensor)) → Option (Tensor × Tensor)
  packed_or n k p none = prepack n (k / 2) p.0.at p.1.at fresh.codes fresh.scales
  packed_or n k p (some q) = q

  abbrev pub codes_of : ℕ → ℕ → Head W → Tensor × Tensor
  codes_of n k h = codes_or h.weight n k h.codes

  abbrev pub packed_of : ℕ → ℕ → Head W → Option (Tensor × Tensor)
  packed_of n k h = packed_or n k (codes_of n k h) h.qpn

  abbrev pub answer_with : ℕ → Option Geometry → Tensor × Tensor → Option (Tensor × Tensor) → Answer
  answer_with m none p q = ct_kernel m p
  answer_with m (some g) p none = ct_kernel m p
  answer_with m (some g) p (some q) = Answer.gemm_qpn2 g q

  abbrev pub answer_on : Hidden → Head W → Option (ℕ × ℕ) → Answer
  answer_on x h none = original
  answer_on x h (some (n, k)) =
      if (not (is_float16 x.dtype) || x.has_bias) || ltb 64 x.m
      then original
      else answer_with x.m (lm_cfg e fresh pack x.m n k) (codes_of n k h) (packed_of n k h)

  -- What a call answers without caches.
  abbrev pub answer : Head W → Hidden → Answer
  answer h x = answer_on x h (head_shape h.shape)

  ensured-codes :
      (n k : ℕ) (h : Head W) → (ensure_codes e fresh pack n k h).codes ≡ some (codes_of n k h)
  unfolding ensure_codes load_native
  ensured-codes n k h = ground arith

  ensured-qpn : (n k : ℕ) (h : Head W) → (ensure_codes e fresh pack n k h).qpn ≡ h.qpn
  unfolding ensure_codes load_native
  ensured-qpn n k h = ground arith

  ensured-weight : (n k : ℕ) (h : Head W) → (ensure_codes e fresh pack n k h).weight ≡ h.weight
  unfolding ensure_codes load_native
  ensured-weight n k h = ground arith

  ensured-shape : (n k : ℕ) (h : Head W) → (ensure_codes e fresh pack n k h).shape ≡ h.shape
  unfolding ensure_codes load_native
  ensured-shape n k h = ground arith

  -- What a call may not change, for a weight of that shape.
  pub record IsSame (n k : ℕ) (h h' : Head W) : Type 0 where
    pub same_shape : h'.shape ≡ h.shape
    pub same_codes : codes_of n k h' ≡ codes_of n k h
    pub same_packed : packed_of n k h' ≡ packed_of n k h

  IsSame-refl : (n k : ℕ) (h : Head W) → IsSame n k h h
  IsSame-refl n k h = record { same_shape = refl; same_codes = refl; same_packed = refl }

  IsSame-trans :
      (n k : ℕ) {h h' h'' : Head W} → IsSame n k h h' → IsSame n k h' h'' → IsSame n k h h''
  IsSame-trans n k s t = record {
    same_shape = t.same_shape ∙ s.same_shape;
    same_codes = t.same_codes ∙ s.same_codes;
    same_packed = t.same_packed ∙ s.same_packed;
  }

  ensure_codes-IsSame : (n k : ℕ) (h : Head W) → IsSame n k h (ensure_codes e fresh pack n k h)
  ensure_codes-IsSame n k h =
      let same : codes_of n k (ensure_codes e fresh pack n k h) ≡ codes_of n k h =
        ap (codes_or (ensure_codes e fresh pack n k h).weight n k) (ensured-codes n k h) in
      record {
        same_shape = ensured-shape n k h;
        same_codes = same;
        same_packed = ap₂ (packed_or n k) same (ensured-qpn n k h);
      }

  launch-IsSame :
      (o : Option Geometry) (m n k : ℕ) (h : Head W)
      → IsSame n k h (launch e fresh pack o m n k (codes_of n k h) h).0
  unfolding launch ensure_qpn
  launch-IsSame none m n k h = IsSame-refl n k h
  launch-IsSame (some g) m n k h = record {
    same_shape = ground arith;
    same_codes = ground arith;
    same_packed = ground arith;
  }

  launch-answer_with :
      (o : Option Geometry) (m n k : ℕ) (h : Head W)
      → (launch e fresh pack o m n k (codes_of n k h) h).1
        ≡ answer_with m o (codes_of n k h) (packed_of n k h)
  unfolding launch ensure_qpn qpn_launch
  launch-answer_with none m n k h = refl
  launch-answer_with (some g) m n k h = ground arith

  -- A launch for a layer that has codes.
  with_codes-launch :
      (m n k : ℕ) (h : Head W) (o : Option (Tensor × Tensor)) (p : Tensor × Tensor)
      → o ≡ some p
      → with_codes e fresh pack m n k h o
        ≡ launch e fresh pack (lm_cfg e fresh pack m n k) m n k p h
  unfolding with_codes
  with_codes-launch m n k h o p same = rw same refl

  -- The layer after a call, and its answer, where the call gets to the launch.
  with_codes-Result :
      (m n k : ℕ) (h : Head W)
      → let h' = ensure_codes e fresh pack n k h in
        IsSame n k h (with_codes e fresh pack m n k h' h'.codes).0
        × ((with_codes e fresh pack m n k h' h'.codes).1
            ≡ answer_with m (lm_cfg e fresh pack m n k) (codes_of n k h) (packed_of n k h))
  with_codes-Result m n k h =
      let h' = ensure_codes e fresh pack n k h in
      let cfg = lm_cfg e fresh pack m n k in
      let s = ensure_codes-IsSame n k h in
      let step =
        with_codes-launch m n k h' h'.codes (codes_of n k h')
          (ensured-codes n k h ∙ ap some (sym s.same_codes)) in
      (
        subst (λ r. IsSame n k h r.0) (sym step) (IsSame-trans n k s (launch-IsSame cfg m n k h')),
        ap (λ r. r.1) step
            ∙ launch-answer_with cfg m n k h'
            ∙ ap₂ (answer_with m cfg) s.same_codes s.same_packed,
      )

  pub on_shape-Result :
      (x : Hidden) (n k : ℕ) (h : Head W)
      → IsSame n k h (on_shape e fresh pack x h (some (n, k))).0
        × ((on_shape e fresh pack x h (some (n, k))).1 ≡ answer_on x h (some (n, k)))
  unfolding on_shape
  on_shape-Result x n k h =
      ground (arith, IsSame-refl n k h, ensure_codes-IsSame n k h, with_codes-Result x.m n k h)
