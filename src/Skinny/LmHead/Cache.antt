-- ===== src/Skinny/LmHead/Cache.antt =====
-- The caches of the lm_head over a sequence of calls.
use v100_skinny_unify.Prelude.{
  ℕ, ◌≡◌, refl, sym, ap, ap₂, ◌∙◌, true, false, not, Option, none, some, List, [], ◌∷◌, ltb, ◌||◌,
  if◌then◌else◌, arith,
}
use v100_skinny_unify.Tensor.{Tensor}
use v100_skinny_unify.Skinny.Layer.{Fresh}
use v100_skinny_unify.Skinny.Route.{is_float16}
use v100_skinny_unify.Skinny.LmHead.{
  HeadEnv, Head, Hidden, original, has, head_shape, load_native, lm_cfg, on_shape, embed_apply,
  after_calls, on_load, embed_pw,
}
use v100_skinny_unify.Skinny.LmHead.Uncached.{
  answer_with, answer_on, answer, IsSame, on_shape-Result,
}

module _ {W : Type 0} (e : HeadEnv) (fresh : Fresh) (pack : W → Tensor × Tensor) where
  answer_on-IsSame :
      (x : Hidden) (n k : ℕ) (h h' : Head W)
      → IsSame e fresh pack n k h h'
      → answer_on e fresh pack x h' (some (n, k)) ≡ answer_on e fresh pack x h (some (n, k))
  answer_on-IsSame x n k h h' s =
      ap₂
        (λ p q.
          if (not (is_float16 x.dtype) || x.has_bias) || ltb 64 x.m
          then original
          else answer_with e fresh pack x.m (lm_cfg e fresh pack x.m n k) p q)
        s.same_codes s.same_packed

  answer-IsSame :
      (x : Hidden) (n k : ℕ) (h h' : Head W)
      → head_shape h.shape ≡ some (n, k)
      → IsSame e fresh pack n k h h'
      → answer e fresh pack h' x ≡ answer e fresh pack h x
  answer-IsSame x n k h h' fits s =
      ap (answer_on e fresh pack x h') (ap head_shape s.same_shape ∙ fits)
      ∙ answer_on-IsSame x n k h h' s
      ∙ sym (ap (answer_on e fresh pack x h) fits)

  keeps_answer :
      (h : Head W) (x y : Hidden) (o : Option (ℕ × ℕ))
      → head_shape h.shape ≡ o
      → answer e fresh pack (on_shape e fresh pack x h o).0 y ≡ answer e fresh pack h y
  unfolding on_shape
  keeps_answer h x y none fits = refl
  keeps_answer h x y (some (n, k)) fits =
      answer-IsSame y n k h (on_shape e fresh pack x h (some (n, k))).0 fits
        (on_shape-Result e fresh pack x n k h).0

  gives_answer :
      (h : Head W) (x : Hidden) (o : Option (ℕ × ℕ))
      → (on_shape e fresh pack x h o).1 ≡ answer_on e fresh pack x h o
  unfolding on_shape
  gives_answer h x none = refl
  gives_answer h x (some (n, k)) = (on_shape-Result e fresh pack x n k h).1

  load_native-IsSame :
      (n k : ℕ) (h : Head W)
      → e.native ≡ true
      → has h.codes ≡ false
      → IsSame e fresh pack n k h (load_native e fresh pack n k h)
  unfolding load_native
  load_native-IsSame n k h on absent = record {
    same_shape = refl;
    same_codes = ground arith;
    same_packed = ground arith;
  }

  loaded_answer :
      (h : Head W) (y : Hidden) (o : Option (ℕ × ℕ))
      → head_shape h.shape ≡ o
      → e.native ≡ true
      → has h.codes ≡ false
      → answer e fresh pack (on_load e fresh pack h o) y ≡ answer e fresh pack h y
  loaded_answer h y none fits on absent = refl
  loaded_answer h y (some (n, k)) fits on absent =
      answer-IsSame y n k h (load_native e fresh pack n k h) fits
        (load_native-IsSame n k h on absent)

  embed_pw-answer :
      (h : Head W) (y : Hidden)
      → answer e fresh pack (embed_pw e fresh pack h) y ≡ answer e fresh pack h y
  unfolding embed_pw
  embed_pw-answer h y = ground (arith, loaded_answer h y (head_shape h.shape) refl)

  after_calls-answer :
      (h : Head W) (xs : List Hidden) (y : Hidden)
      → answer e fresh pack (after_calls e fresh pack h xs) y ≡ answer e fresh pack h y
  unfolding after_calls embed_apply
  after_calls-answer h [] y = refl
  after_calls-answer h (x ∷ xs) y =
      after_calls-answer (embed_apply e fresh pack h x).0 xs y
      ∙ keeps_answer h x y (head_shape h.shape) refl

  -- What the lm_head answers to a call does not depend on the calls before it, nor on whether its
  -- codes were loaded with the weights or at the first call: it is `answer` of the layer as it was
  -- created, which keeps no cache.
  pub calls-answer :
      (h : Head W) (xs : List Hidden) (x : Hidden)
      → (embed_apply e fresh pack (after_calls e fresh pack (embed_pw e fresh pack h) xs) x).1
        ≡ answer e fresh pack h x
  unfolding embed_apply
  calls-answer h xs x =
      let h' = after_calls e fresh pack (embed_pw e fresh pack h) xs in
      gives_answer h' x (head_shape h'.shape)
      ∙ after_calls-answer (embed_pw e fresh pack h) xs x
      ∙ embed_pw-answer h x
