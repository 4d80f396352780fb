-- ===== src/Gdn/Fast/Reach.antt =====
-- The builds of a step after step, and what a fast build then leaves.
use v100_skinny_unify.Prelude.{
  ℕ, ◌+◌, ◌≡◌, refl, sym, ap, ◌∙◌, ◌⊎◌, inl, inr, Bool, true, false, none, some, List, [], ◌∷◌,
  lt-cases, arith,
}
use mathlib.Core.Path.{subst}
use v100_skinny_unify.Prelude.Options.{some_injective}
use v100_skinny_unify.Prelude.Lists.{length, replicate}
use v100_skinny_unify.Queries.{last_or}
use v100_skinny_unify.Gdn.Fast.{
  GraphKey, Common, Builder, fill, copy, Request, fast_shared, fast_update, Requests, spec_update,
  placeholder_update,
}
use v100_skinny_unify.Gdn.Fast.Tails.{fill-in, fill-out, IsTail, CommonTail, IsPure}
use v100_skinny_unify.Gdn.Fast.Keys.{
  HasTails, IsKeyed, fast_shared-IsKeyed, fast-HasTails, IsWritten, fast_update-IsPure,
}

module _ {A : Type 0} (pad : A) (shared : Bool) where
  -- A batch of one speculative request, with one row of each sort.
  pub record IsSingle (r : Requests A) : Type 0 where
    pub one : length r.states ≡ 1
    pub end : ℕ
    pub ends : r.ends ≡ end ∷ []

  -- The states of a builder and the buffers after builds of its own and, where the buffers are
  -- shared, of other builders. On shared buffers the builds that are not fast have one request.
  pub data Reaches : Builder A → Type 0 where
    start : {b : Builder A} → b.tail_key ≡ none → b.common.initialized_key ≡ none → Reaches b
    fast : {b : Builder A} → (r : Request A) → Reaches b → Reaches (fast_update pad shared r b)
    spec :
        {b : Builder A}
        → (r : Requests A) → (shared ≡ false) ⊎ IsSingle r
        → Reaches b
        → Reaches (spec_update pad shared r b)
    placeholder :
        {b : Builder A}
        → (rows width : ℕ) → Reaches b
        → Reaches (placeholder_update pad shared rows width b)
    reset : {b : Builder A} → Reaches b → Reaches (record b { tail_key = none })
    other_fast :
        {b : Builder A}
        → (r : Request A) → shared ≡ true
        → Reaches b
        → Reaches (record b { common = fast_shared r b.common })
    other_spec :
        {b : Builder A}
        → (r : Requests A) → shared ≡ true
        → IsSingle r
        → Reaches b
        → Reaches (record b { common = (spec_update pad shared r b).common })

end_of :
    (first end : ℕ) (ends : List ℕ) (buffer : ℕ → ℕ)
    → ends ≡ end ∷ []
    → copy (first ∷ ends) buffer 1 ≡ last_or first ends
unfolding copy
end_of first end ends buffer e = ap (λ l. copy (first ∷ l) buffer 1) e ∙ sym (ap (last_or first) e)

single-CommonTail :
    {A : Type 0} (pad : A) (shared : Bool) (r : Requests A) (b : Builder A)
    → IsSingle pad shared r
    → CommonTail
        (r.batch_size, last_or r.first_start r.ends, r.width)
        (spec_update pad shared r b).common
unfolding spec_update
single-CommonTail pad shared r b s =
    let n = length r.states in
    let rows = r.first_start ∷ r.ends in
    let last = last_or r.first_start r.ends in
    record {
      masks = λ i le lt.
          fill-in n r.batch_size i false (copy r.masks b.common.masks) (omega (arith, s.one)) lt;
      starts = λ i le lt. elim (lt-cases 1 i le) [
        | inl here ↦
            ap (fill (n + 1) (r.batch_size + 1) last (copy rows b.common.starts)) (sym here)
            ∙ fill-out (n + 1) (r.batch_size + 1) 1 last (copy rows b.common.starts)
                (inl (omega (arith, s.one)))
            ∙ end_of r.first_start s.end r.ends b.common.starts s.ends
        | inr later ↦
            fill-in (n + 1) (r.batch_size + 1) i last (copy rows b.common.starts)
              (omega (arith, s.one)) lt
      ];
      accepted = λ i le lt.
          fill-in n r.batch_size i 1 (copy r.accepted b.common.accepted) (omega (arith, s.one)) lt;
      selectors = λ i le lt.
          fill-in n r.batch_size i 1 (copy r.selectors b.common.selectors) (omega (arith, s.one))
            lt;
    }

module _ {A : Type 0} (pad : A) where
  no_states :
      {key : GraphKey} (states : ℕ → List A)
      → none ≡ some key
      → IsTail key.0 (replicate key.2 pad) states
  no_states states e = cc

  spec-IsKeyed :
      (r : Requests A) (b : Builder A)
      → IsSingle pad true r
      → IsKeyed pad (spec_update pad true r b).common
  unfolding spec_update
  spec-IsKeyed r b s key e =
      subst (λ k. CommonTail k (spec_update pad true r b).common) (some_injective e)
        (single-CommonTail pad true r b s)

  spec-HasTails :
      (shared : Bool) (r : Requests A) (b : Builder A)
      → (shared ≡ false) ⊎ IsSingle pad shared r
      → HasTails pad shared (spec_update pad shared r b)
  unfolding spec_update
  spec-HasTails true r b (inl e) = cc
  spec-HasTails true r b (inr s) = record {
    states = λ key e. no_states _ e;
    common = spec-IsKeyed r b s;
  }
  spec-HasTails false r b s = record { states = λ key e. no_states _ e; common = λ key e. cc }

  placeholder-HasTails :
      (shared : Bool) (rows width : ℕ) (b : Builder A)
      → HasTails pad shared b
      → HasTails pad shared (placeholder_update pad shared rows width b)
  unfolding placeholder_update
  placeholder-HasTails true rows width b h = record {
    states = λ key e. no_states _ e;
    common = h.common;
  }
  placeholder-HasTails false rows width b h = record {
    states = λ key e. no_states _ e;
    common = λ key e. cc;
  }

  reset-HasTails :
      (shared : Bool) (b : Builder A)
      → HasTails pad shared b
      → HasTails pad shared (record b { tail_key = none })
  reset-HasTails true b h = record { states = λ key e. no_states _ e; common = h.common }
  reset-HasTails false b h = record { states = λ key e. no_states _ e; common = λ key e. cc }

  other-HasTails :
      (shared : Bool) (b : Builder A) (c : Common)
      → shared ≡ true
      → HasTails pad shared b
      → IsKeyed pad c
      → HasTails pad shared (record b { common = c })
  other-HasTails true b c e h k = record { states = h.states; common = k }
  other-HasTails false b c e h k = cc

  start-HasTails :
      (shared : Bool) (b : Builder A)
      → b.tail_key ≡ none
      → b.common.initialized_key ≡ none
      → HasTails pad shared b
  start-HasTails true b t k = record { states = λ key e. cc; common = λ key e. cc }
  start-HasTails false b t k = record { states = λ key e. cc; common = λ key e. cc }

  other_spec-HasTails :
      (shared : Bool) (r : Requests A) (b : Builder A)
      → shared ≡ true
      → IsSingle pad shared r
      → HasTails pad shared b
      → HasTails pad shared (record b { common = (spec_update pad shared r b).common })
  other_spec-HasTails true r b e s h =
      other-HasTails true b (spec_update pad true r b).common refl h (spec-IsKeyed r b s)
  other_spec-HasTails false r b e s h = cc

  other_fast-HasTails :
      (shared : Bool) (r : Request A) (b : Builder A)
      → shared ≡ true
      → HasTails pad shared b
      → HasTails pad shared (record b { common = fast_shared r b.common })
  other_fast-HasTails true r b e h =
      other-HasTails true b (fast_shared r b.common) refl h
        (fast_shared-IsKeyed pad r b.common h.common)
  other_fast-HasTails false r b e h = cc

  Reaches-HasTails : (shared : Bool) {b : Builder A} → Reaches pad shared b → HasTails pad shared b
  Reaches-HasTails shared (start {b} t k) = start-HasTails shared b t k
  Reaches-HasTails shared (fast {b} r h) = fast-HasTails pad shared r b (Reaches-HasTails shared h)
  Reaches-HasTails shared (spec {b} r s h) = spec-HasTails shared r b s
  Reaches-HasTails shared (placeholder {b} rows width h) =
      placeholder-HasTails shared rows width b (Reaches-HasTails shared h)
  Reaches-HasTails shared (reset {b} h) = reset-HasTails shared b (Reaches-HasTails shared h)
  Reaches-HasTails shared (other_fast {b} r e h) =
      other_fast-HasTails shared r b e (Reaches-HasTails shared h)
  Reaches-HasTails shared (other_spec {b} r e s h) =
      other_spec-HasTails shared r b e s (Reaches-HasTails shared h)

  -- A fast build that writes the buffers leaves in them its one request and the padding of its
  -- shape, whatever builds came before: the rows that it does not fill again hold what it would fill
  -- in. With buffers of its own this holds after any builds; with shared buffers the speculative
  -- batches that were not built fast are to have one request each.
  pub fast-IsPure :
      (shared : Bool) {b : Builder A} (r : Request A)
      → Reaches pad shared b
      → IsWritten pad shared r b
      → IsPure pad r (fast_update pad shared r b)
  fast-IsPure shared {b} r h w = fast_update-IsPure pad shared r b (Reaches-HasTails shared h) w
