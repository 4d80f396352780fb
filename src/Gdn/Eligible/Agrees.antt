-- ===== src/Gdn/Eligible/Agrees.antt =====
-- A fast build leaves the rows that the normal build of the same batch would leave.
use v100_skinny_unify.Prelude.{
  ℕ, zero, suc, ◌+◌, ◌<◌, ◌≡◌, refl, sym, ap, ◌∙◌, Bool, true, false, Option, none, some, List, [],
  ◌∷◌, arith, inl,
}
use mathlib.Core.Path.{subst}
use v100_skinny_unify.Prelude.Lists.{take, length, get_or, replicate}
use v100_skinny_unify.Prelude.Options.{◌>>=◌, Holds-some, some_injective}
use v100_skinny_unify.Gdn.Contract.{pick, invert, default}
use v100_skinny_unify.Gdn.Contract.Rows.{count}
use v100_skinny_unify.Gdn.Pure.{SpecPart, spec_part, is_candidate, all_true, count_zeros}
use v100_skinny_unify.Gdn.Fast.{Builder, fill, copy, Request, Requests, fast_update, spec_update}
use v100_skinny_unify.Gdn.Fast.Tails.{fill-in, fill-out, IsTail, IsPure}
use v100_skinny_unify.Gdn.Fast.Keys.{IsWritten}
use v100_skinny_unify.Gdn.Fast.Reach.{Reaches, fast-IsPure}
use v100_skinny_unify.Gdn.Eligible.Built.{IsBuilt, fast_request-IsBuilt}
use v100_skinny_unify.Gdn.Eligible.{FastInputs, fast_request}
use v100_skinny_unify.Gdn.Eligible.Slots.{IsOne, step_of, fast_states-Selects}

-- The rows of a graph are the same.
pub record SameRows {A : Type 0} (n : ℕ) (x y : Builder A) : Type 0 where
  pub states : (i : ℕ) → i < n → x.states i ≡ y.states i
  pub masks : (i : ℕ) → i < n → x.common.masks i ≡ y.common.masks i
  pub starts : (i : ℕ) → i < n + 1 → x.common.starts i ≡ y.common.starts i
  pub accepted : (i : ℕ) → i < n → x.common.accepted i ≡ y.common.accepted i
  pub selectors : (i : ℕ) → i < n → x.common.selectors i ≡ y.common.selectors i

-- The first row is written, the others are padding.
one_row :
    {X : Type 0} (n : ℕ) (buffer other : ℕ → X) (y x : X)
    → buffer 0 ≡ y
    → IsTail n x buffer
    → (i : ℕ) → i < n
    → buffer i ≡ fill 1 n x (copy (y ∷ []) other) i
unfolding copy
one_row n buffer other y x first tail zero lt =
    first ∙ sym (fill-out 1 n 0 x (copy (y ∷ []) other) (inl (omega arith)))
one_row n buffer other y x first tail (suc i) lt =
    tail (suc i) (omega arith) lt
    ∙ sym (fill-in 1 n (suc i) x (copy (y ∷ []) other) (omega arith) lt)

two_rows :
    {X : Type 0} (n : ℕ) (buffer other : ℕ → X) (y x : X)
    → buffer 0 ≡ y
    → IsTail n x buffer
    → (i : ℕ) → i < n
    → buffer i ≡ fill 2 n x (copy (y ∷ x ∷ []) other) i
unfolding copy
two_rows n buffer other y x first tail zero lt =
    first ∙ sym (fill-out 2 n 0 x (copy (y ∷ x ∷ []) other) (inl (omega arith)))
two_rows n buffer other y x first tail (suc zero) lt =
    tail 1 (omega arith) lt ∙ sym (fill-out 2 n 1 x (copy (y ∷ x ∷ []) other) (inl (omega arith)))
two_rows n buffer other y x first tail (suc (suc i)) lt =
    tail (suc (suc i)) (omega arith) lt
    ∙ sym (fill-in 2 n (suc (suc i)) x (copy (y ∷ x ∷ []) other) (omega arith) lt)

take-one :
    {X : Type 0} (xs : List X) (d x : X) → length xs ≡ 1 → x ≡ get_or xs 0 d → take 1 xs ≡ x ∷ []
take-one [] d x h e = absurd (omega arith)
take-one (y ∷ []) d x h e = ap (λ z. z ∷ []) (sym e)
take-one (y ∷ z ∷ xs) d x h e = absurd (omega arith)

default_one :
    (accepted : List ℕ) (o : Option (List ℕ))
    → length accepted ≡ 1
    → ((l : List ℕ) → o ≡ some l → length l ≡ 1)
    → length (default accepted o) ≡ 1
default_one accepted none h k = h
default_one accepted (some l) h k = k l refl

module _ {A : Type 0} where
  -- The requests that `build` writes, with these tensors.
  abbrev pub requests_of : FastInputs A → SpecPart A → Requests A
  requests_of i p = record {
    batch_size = i.num_actual_tokens;
    width = i.num_spec + 1;
    states = p.states;
    masks = true ∷ [];
    first_start = get_or i.query_start_loc 0 0;
    ends = get_or i.query_start_loc 1 0 ∷ [];
    accepted = p.accepted;
    selectors = p.selectors;
  }

  -- The one request of a fast build.
  abbrev single_of : Request A → Requests A
  single_of r = record {
    batch_size = r.batch_size;
    width = r.width;
    states = r.states ∷ [];
    masks = true ∷ [];
    first_start = 0;
    ends = r.query_len ∷ [];
    accepted = r.accepted ∷ [];
    selectors = r.selector ∷ [];
  }

  -- The tensors of a batch of one request.
  abbrev single_part : Request A → SpecPart A
  single_part r = record {
    states = r.states ∷ [];
    accepted = r.accepted ∷ [];
    selectors = r.selector ∷ [];
  }

  requests-single :
      (i : FastInputs A) (r : Request A) (b : IsBuilt i r)
      → requests_of i (single_part r) ≡ single_of r
  requests-single i r b = λ j. record {
    batch_size = sym b.batch_is j;
    width = sym b.width_is j;
    states = r.states ∷ [];
    masks = true ∷ [];
    first_start = b.starts j;
    ends = sym b.len_is j ∷ [];
    accepted = r.accepted ∷ [];
    selectors = r.selector ∷ [];
  }

module _ {A : Type 0} (pad : A) (shared : Bool) where
  pure-SameRows :
      (r : Request A) (x other : Builder A)
      → IsPure pad r x
      → SameRows r.batch_size x (spec_update pad shared (single_of r) other)
  unfolding spec_update
  pure-SameRows r x other h =
      let n = r.batch_size in
      let c = other.common in
      record {
        states =
            one_row n x.states other.states r.states (replicate r.width pad) h.states h.state_tail;
        masks = one_row n x.common.masks c.masks true false h.mask h.tail.masks;
        starts = two_rows (n + 1) x.common.starts c.starts 0 r.query_len h.start h.tail.starts;
        accepted = one_row n x.common.accepted c.accepted r.accepted 1 h.accepted h.tail.accepted;
        selectors =
            one_row n x.common.selectors c.selectors r.selector 1 h.selector h.tail.selectors;
      }

  part-single :
      (is_pad : A → Bool) (i : FastInputs A) (r : Request A) (legacy asserts chain : Bool)
      (b : IsBuilt i r)
      → IsOne i b.accepted
      → spec_part is_pad pad (step_of i b.accepted legacy asserts chain) ≡ some (single_part r)
  unfolding spec_part is_candidate pick invert all_true count count_zeros ◌>>=◌
  part-single is_pad i r legacy asserts chain b one =
      let slots = fast_states-Selects i b.accepted legacy asserts chain one r.states b.states in
      let counts = take-one b.accepted 0 r.accepted one.one_accepted b.accepted_is in
      let chosen =
        take-one (default b.accepted i.selectors) 0 r.selector
          (default_one b.accepted i.selectors one.one_accepted one.one_selector) b.selector_is in
      rw (b.has_parents, slots, counts, chosen) refl

  -- The fast build is the normal build: for a batch of one request that is built fast, `build` off
  -- the fast path returns the tensors of the speculative requests, from slices and with no contract,
  -- whatever the switches; and the rows of the graph that the fast build leaves, behind any builds,
  -- are those that `build` would write from these tensors. The tables and lists have one row; with
  -- shared buffers the builds before that were not fast had one request, and the common rows are
  -- written.
  pub fast-SameRows :
      (is_pad : A → Bool) (i : FastInputs A) (r : Request A) (legacy asserts chain : Bool)
      {b : Builder A} (accepted : List ℕ) (other : Builder A)
      → fast_request i ≡ some r
      → i.num_accepted_tokens ≡ some accepted
      → IsOne i accepted
      → Reaches pad shared b
      → IsWritten pad shared r b
      → (p : SpecPart A) × (spec_part is_pad pad (step_of i accepted legacy asserts chain) ≡ some p)
        × SameRows r.batch_size
            (fast_update pad shared r b)
            (spec_update pad shared (requests_of i p) other)
  fast-SameRows is_pad i r legacy asserts chain {b} accepted other e given one reach written =
      let built = Holds-some (IsBuilt i) (fast_request i) (fast_request-IsBuilt i) e in
      let same : built.accepted ≡ accepted = some_injective (sym built.given ∙ given) in
      (
        single_part r,
        subst (λ l. spec_part is_pad pad (step_of i l legacy asserts chain) ≡ some (single_part r))
            same
            (part-single is_pad i r legacy asserts chain built (subst (IsOne i) (sym same) one)),
        subst
            (λ q.
              SameRows r.batch_size (fast_update pad shared r b) (spec_update pad shared q other))
            (sym (requests-single i r built))
            (pure-SameRows r (fast_update pad shared r b) other
              (fast-IsPure pad shared r reach written)),
      )
