-- ===== src/Gdn/Fast/Keys.antt =====
-- The keys by which a fast build leaves out the padding.
use v100_skinny_unify.Prelude.{
  ℕ, ◌+◌, ◌≡◌, refl, sym, ap, ◌∙◌, Bool, true, false, Option, some, if◌then◌else◌, if_true,
}
use mathlib.Core.Path.{subst}
use v100_skinny_unify.Prelude.Options.{some_injective}
use v100_skinny_unify.Prelude.Lists.{replicate}
use v100_skinny_unify.Gdn.Fast.{
  GraphKey, equals_key, Common, Builder, Request, key_of, update_common, write_common, fast_shared,
  fast_update,
}
use v100_skinny_unify.Gdn.Fast.Tails.{
  equals_key-some, IsTail, first_row, fill_unless-IsTail, CommonTail, IsPure,
  write_common-CommonTail,
}

-- The key that a build goes by for the buffers of all layers.
abbrev pub common_key : {A : Type 0} → Bool → Builder A → Option GraphKey
common_key true b = b.common.initialized_key
common_key false b = b.tail_key

module _ {A : Type 0} (pad : A) where
  -- Where a key is set, the padding of its shape is in the buffers.
  pub record HasTails (shared : Bool) (b : Builder A) : Type 0 where
    pub states :
        (key : GraphKey) → b.tail_key ≡ some key → IsTail key.0 (replicate key.2 pad) b.states
    pub common : (key : GraphKey) → common_key shared b ≡ some key → CommonTail key b.common

  known :
      (shared : Bool) (b : Builder A) (key : GraphKey)
      → HasTails shared b
      → equals_key (common_key shared b) key ≡ true
      → CommonTail key b.common
  known shared b key h e = h.common key (equals_key-some (common_key shared b) key e)

  known_states :
      (shared : Bool) (b : Builder A) (key : GraphKey)
      → HasTails shared b
      → equals_key b.tail_key key ≡ true
      → IsTail key.0 (replicate key.2 pad) b.states
  known_states shared b key h e = h.states key (equals_key-some b.tail_key key e)

  -- A common part with the same rows.
  same_rows :
      (key : GraphKey) (c : Common) (key' : Option GraphKey) (epoch : Option ℕ)
      → CommonTail key c
      → CommonTail key (record c { initialized_key = key'; updated_epoch = epoch })
  same_rows key c key' epoch t = record {
    masks = t.masks;
    starts = t.starts;
    accepted = t.accepted;
    selectors = t.selectors;
  }

  -- Where the shared buffers have a key, the padding of its shape is in them.
  abbrev pub IsKeyed : Common → Type 0
  IsKeyed c = (key : GraphKey) → c.initialized_key ≡ some key → CommonTail key c

  written : Request A → Common → Common
  written r c = record (write_common (equals_key c.initialized_key (key_of r)) r c) {
    initialized_key = some (key_of r);
    updated_epoch = r.epoch;
  }

  written-IsKeyed : (r : Request A) (c : Common) → IsKeyed c → IsKeyed (written r c)
  unfolding written
  written-IsKeyed r c h key e =
      let tail = equals_key c.initialized_key (key_of r) in
      subst (λ k. CommonTail k (written r c)) (some_injective e)
        (same_rows (key_of r) (write_common tail r c) (some (key_of r)) r.epoch (
          write_common-CommonTail tail r c
            (λ t. h (key_of r) (equals_key-some c.initialized_key (key_of r) t))))

  either_common :
      (P : Common → Type 0) (test : Bool) (c d : Common) → P c → P d → P (if test then c else d)
  either_common P true c d p q = p
  either_common P false c d p q = q

  -- The shared buffers are written, or left since they are those of this epoch.
  pub fast_shared-IsKeyed : (r : Request A) (c : Common) → IsKeyed c → IsKeyed (fast_shared r c)
  unfolding fast_shared written
  fast_shared-IsKeyed r c h =
      either_common IsKeyed
        (update_common true r.epoch c.updated_epoch (equals_key c.initialized_key (key_of r)))
        (written r c) c (written-IsKeyed r c h) h

  pub fast_states-IsTail :
      (shared : Bool) (r : Request A) (b : Builder A)
      → HasTails shared b
      → IsTail r.batch_size (replicate r.width pad) (fast_update pad shared r b).states
  unfolding fast_update
  fast_states-IsTail shared r b h =
      fill_unless-IsTail (equals_key b.tail_key (key_of r)) r.batch_size (replicate r.width pad)
        r.states b.states (known_states shared b (key_of r) h)

  pub fast-HasTails :
      (shared : Bool) (r : Request A) (b : Builder A)
      → HasTails shared b
      → HasTails shared (fast_update pad shared r b)
  unfolding fast_update
  fast-HasTails true r b h = record {
    states = λ key e.
        subst (λ k. IsTail k.0 (replicate k.2 pad) (fast_update pad true r b).states)
          (some_injective e) (fast_states-IsTail true r b h);
    common = fast_shared-IsKeyed r b.common h.common;
  }
  fast-HasTails false r b h = record {
    states = λ key e.
        subst (λ k. IsTail k.0 (replicate k.2 pad) (fast_update pad false r b).states)
          (some_injective e) (fast_states-IsTail false r b h);
    common = λ key e.
        subst (λ k. CommonTail k (fast_update pad false r b).common) (some_injective e)
          (write_common-CommonTail (equals_key b.tail_key (key_of r)) r b.common
            (known false b (key_of r) h));
  }

  -- A fast build that writes the buffers of all layers: those of a builder always, the shared ones
  -- unless they are those of this epoch and shape.
  abbrev pub IsWritten : Bool → Request A → Builder A → Type 0
  IsWritten shared r b =
      update_common shared r.epoch b.common.updated_epoch
        (equals_key b.common.initialized_key (key_of r))
      ≡ true

  write_common-IsPure :
      (tail : Bool) (r : Request A) (b b' : Builder A)
      → b'.states 0 ≡ r.states
      → IsTail r.batch_size (replicate r.width pad) b'.states
      → b'.common.masks ≡ (write_common tail r b.common).masks
      → b'.common.starts ≡ (write_common tail r b.common).starts
      → b'.common.accepted ≡ (write_common tail r b.common).accepted
      → b'.common.selectors ≡ (write_common tail r b.common).selectors
      → CommonTail (key_of r) b'.common
      → IsPure pad r b'
  unfolding write_common
  write_common-IsPure tail r b b' first states m s a l t = record {
    states = first;
    state_tail = states;
    mask = ap (λ f. f 0) m ∙ first_row tail r.batch_size false true b.common.masks;
    start = ap (λ f. f 0) s ∙ first_row tail (r.batch_size + 1) r.query_len 0 b.common.starts;
    accepted = ap (λ f. f 0) a ∙ first_row tail r.batch_size 1 r.accepted b.common.accepted;
    selector = ap (λ f. f 0) l ∙ first_row tail r.batch_size 1 r.selector b.common.selectors;
    tail = t;
  }

  fast_first :
      (shared : Bool) (r : Request A) (b : Builder A)
      → (fast_update pad shared r b).states 0 ≡ r.states
  unfolding fast_update
  fast_first shared r b =
      first_row (equals_key b.tail_key (key_of r)) r.batch_size (replicate r.width pad) r.states
        b.states

  pub fast_update-IsPure :
      (shared : Bool) (r : Request A) (b : Builder A)
      → HasTails shared b
      → IsWritten shared r b
      → IsPure pad r (fast_update pad shared r b)
  unfolding fast_update fast_shared written
  fast_update-IsPure true r b h w =
      let tail = equals_key b.common.initialized_key (key_of r) in
      let same : (fast_update pad true r b).common ≡ written r b.common =
        if_true (update_common true r.epoch b.common.updated_epoch tail) _ _ w in
      write_common-IsPure tail r b (fast_update pad true r b) (fast_first true r b)
        (fast_states-IsTail true r b h) (ap (λ c. c.masks) same) (ap (λ c. c.starts) same)
        (ap (λ c. c.accepted) same) (ap (λ c. c.selectors) same)
        (subst (CommonTail (key_of r)) (sym same) (written-IsKeyed r b.common h.common _ refl))
  fast_update-IsPure false r b h w =
      let tail = equals_key b.tail_key (key_of r) in
      write_common-IsPure tail r b (fast_update pad false r b) (fast_first false r b)
        (fast_states-IsTail false r b h) refl refl refl refl
        (write_common-CommonTail tail r b.common (known false b (key_of r) h))
