-- ===== src/Gdn/Fast/Tails.antt =====
-- The padding rows after a fast build.
use v100_skinny_unify.Prelude.{
  ℕ, ◌+◌, ◌≤◌, ◌<◌, ◌≡◌, refl, ◌∙◌, ◌⊎◌, inl, inr, Bool, true, false, Option, none, some, leb, ltb,
  ◌&&◌, if_true, if_false, arith,
}
use v100_skinny_unify.Prelude.Lists.{replicate}
use v100_skinny_unify.Gdn.Fast.{
  GraphKey, equals_key, Common, Builder, fill, fill_unless, Request, key_of, write_common,
}

pub equals_key-some :
    (o : Option GraphKey) (key : GraphKey) → equals_key o key ≡ true → o ≡ some key
equals_key-some none key e = cc
equals_key-some (some (b, q, w)) (b', q', w') e = ground arith

pub fill-in :
    {X : Type 0} (from to i : ℕ) (x : X) (buffer : ℕ → X)
    → from ≤ i
    → i < to
    → fill from to x buffer i ≡ x
unfolding fill
fill-in from to i x buffer le lt = if_true (leb from i && ltb i to) _ _ (ground arith)

pub fill-out :
    {X : Type 0} (from to i : ℕ) (x : X) (buffer : ℕ → X)
    → (i < from) ⊎ (to ≤ i)
    → fill from to x buffer i ≡ buffer i
unfolding fill
fill-out from to i x buffer out = if_false (leb from i && ltb i to) _ _ (ground arith)

-- From row 1 on, `to` apart.
abbrev pub IsTail : {X : Type 0} → ℕ → X → (ℕ → X) → Type 0
IsTail to x buffer = (i : ℕ) → 1 ≤ i → i < to → buffer i ≡ x

pub first_row :
    {X : Type 0} (tail : Bool) (to : ℕ) (x y : X) (buffer : ℕ → X)
    → fill_unless tail 1 to x (fill 0 1 y buffer) 0 ≡ y
first_row true to x y buffer = fill-in 0 1 0 y buffer (omega arith) (omega arith)
first_row false to x y buffer =
    fill-out 1 to 0 x (fill 0 1 y buffer) (inl (omega arith))
    ∙ fill-in 0 1 0 y buffer (omega arith) (omega arith)

pub fill_unless-IsTail :
    {X : Type 0} (tail : Bool) (to : ℕ) (x y : X) (buffer : ℕ → X)
    → (tail ≡ true → IsTail to x buffer)
    → IsTail to x (fill_unless tail 1 to x (fill 0 1 y buffer))
fill_unless-IsTail true to x y buffer h i le lt = fill-out 0 1 i y buffer (inr le) ∙ h refl i le lt
fill_unless-IsTail false to x y buffer h i le lt = fill-in 1 to i x (fill 0 1 y buffer) le lt

-- The padding of a shape: no request, an empty query at the end, one accepted token.
pub record CommonTail (key : GraphKey) (c : Common) : Type 0 where
  pub masks : IsTail key.0 false c.masks
  pub starts : IsTail (key.0 + 1) key.1 c.starts
  pub accepted : IsTail key.0 1 c.accepted
  pub selectors : IsTail key.0 1 c.selectors

-- What a fast build is to leave in the buffers of one request.
pub record IsPure {A : Type 0} (pad : A) (r : Request A) (b : Builder A) : Type 0 where
  pub states : b.states 0 ≡ r.states
  pub state_tail : IsTail r.batch_size (replicate r.width pad) b.states
  pub mask : b.common.masks 0 ≡ true
  pub start : b.common.starts 0 ≡ 0
  pub accepted : b.common.accepted 0 ≡ r.accepted
  pub selector : b.common.selectors 0 ≡ r.selector
  pub tail : CommonTail (key_of r) b.common

pub write_common-CommonTail :
    {A : Type 0} (tail : Bool) (r : Request A) (c : Common)
    → (tail ≡ true → CommonTail (key_of r) c)
    → CommonTail (key_of r) (write_common tail r c)
unfolding write_common
write_common-CommonTail tail r c h = record {
  masks = fill_unless-IsTail tail r.batch_size false true c.masks (λ e. (h e).masks);
  starts = fill_unless-IsTail tail (r.batch_size + 1) r.query_len 0 c.starts (λ e. (h e).starts);
  accepted = fill_unless-IsTail tail r.batch_size 1 r.accepted c.accepted (λ e. (h e).accepted);
  selectors = fill_unless-IsTail tail r.batch_size 1 r.selector c.selectors (λ e. (h e).selectors);
}
