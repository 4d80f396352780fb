-- ===== src/Gdn/Eligible/Built.antt =====
-- What a fast build is known to be for.
use v100_skinny_unify.Prelude.{
  ==_iff, ℕ, ◌+◌, ◌-◌, ◌≡◌, refl, ap, Bool, true, false, Option, none, some, List, ◌==◌, arith,
}
use v100_skinny_unify.Skinny.Route.{is_some}
use v100_skinny_unify.Prelude.Lists.{length, get_or}
use v100_skinny_unify.Prelude.Options.{Holds, >>=-Holds}
use v100_skinny_unify.Prelude.Int.{ℤ}
use v100_skinny_unify.Gdn.Contract.{ensure, default}
use v100_skinny_unify.Gdn.Fast.{Request}
use v100_skinny_unify.Gdn.Eligible.{
  FastInputs, fast_states, query_len_of, is_pure, fits, request_of, write_request, pure_request,
  with_required, fast_request,
}

ensure-Holds :
    {X : Type 0} (P : X → Type 0) (test : Bool) (next : Option X)
    → (test ≡ true → Holds P next)
    → Holds P (ensure test next)
unfolding ensure Holds
ensure-Holds P true next step = step refl
ensure-Holds P false next step = tt

some-Holds : {X : Type 0} (P : X → Type 0) (x : X) → P x → Holds P (some x)
unfolding Holds
some-Holds P x h = h

pub record IsBuilt {A : Type 0} (i : FastInputs A) (r : Request A) : Type 0 where
  pub accepted : List ℕ
  pub has_parents : is_some i.parent_rows ≡ true
  pub given : i.num_accepted_tokens ≡ some accepted
  pub states : fast_states i (i.num_spec + 1) i.current ≡ some r.states
  pub two_locations : length i.query_start_loc - 1 ≡ 1
  pub starts : get_or i.query_start_loc 0 0 ≡ 0
  pub batch_is : r.batch_size ≡ i.num_actual_tokens
  pub width_is : r.width ≡ i.num_spec + 1
  pub len_is : r.query_len ≡ get_or i.query_start_loc 1 0
  pub accepted_is : r.accepted ≡ get_or accepted 0 0
  pub selector_is : r.selector ≡ get_or (default accepted i.selectors) 0 0

pure_starts :
    {A : Type 0} (i : FastInputs A) (tree : List ℕ) (drafts : List ℤ)
    → is_pure i tree drafts ≡ true
    → get_or i.query_start_loc 0 0 ≡ 0
pure_starts i tree drafts pure = ground arith

pure_len :
    {A : Type 0} (i : FastInputs A) (tree : List ℕ) (drafts : List ℤ)
    → is_pure i tree drafts ≡ true
    → query_len_of i ≡ get_or i.query_start_loc 1 0
pure_len i tree drafts pure = ground (arith, pure_starts i tree drafts pure)

module _ {A : Type 0} (i : FastInputs A) where
  pure_request-IsBuilt :
      (parent_rows : ℕ) (tree accepted : List ℕ) (drafts : List ℤ)
      → is_some i.parent_rows ≡ true
      → i.num_accepted_tokens ≡ some accepted
      → Holds (IsBuilt i) (pure_request i parent_rows tree accepted drafts)
  unfolding pure_request write_request
  pure_request-IsBuilt parent_rows tree accepted drafts parents given =
      ensure-Holds (IsBuilt i) (length i.query_start_loc - 1 == 1) _ (λ two.
        ensure-Holds (IsBuilt i) _ _ (λ rows.
          ensure-Holds (IsBuilt i) (is_pure i tree drafts) _ (λ pure.
            >>=-Holds (IsBuilt i) (fast_states i (i.num_spec + 1) i.current)
              (write_request i accepted)
              (λ states selected.
                ensure-Holds (IsBuilt i) (fits i accepted) (some (request_of i accepted states))
                  (λ room. some-Holds (IsBuilt i) (request_of i accepted states) (record {
                    accepted = accepted;
                    has_parents = parents;
                    given = given;
                    states = selected;
                    two_locations = (==_iff _ _).0 two;
                    starts = pure_starts i tree drafts pure;
                    batch_is = refl;
                    width_is = refl;
                    len_is = pure_len i tree drafts pure;
                    accepted_is = refl;
                    selector_is = refl;
                  }))))))

  required-IsBuilt :
      (parent_rows : Option ℕ) (tree accepted : Option (List ℕ)) (drafts : Option (List ℤ))
      → i.parent_rows ≡ parent_rows
      → i.num_accepted_tokens ≡ accepted
      → Holds (IsBuilt i) (with_required i parent_rows tree accepted drafts)
  unfolding Holds
  required-IsBuilt none tree accepted drafts parents given = tt
  required-IsBuilt (some p) none accepted drafts parents given = tt
  required-IsBuilt (some p) (some t) none drafts parents given = tt
  required-IsBuilt (some p) (some t) (some a) none parents given = tt
  required-IsBuilt (some p) (some t) (some a) (some d) parents given =
      pure_request-IsBuilt p t a d (ap is_some parents) given

  pub fast_request-IsBuilt : Holds (IsBuilt i) (fast_request i)
  unfolding fast_request
  fast_request-IsBuilt = ensure-Holds (IsBuilt i) _ _ (λ switches.
      required-IsBuilt i.parent_rows i.num_tree_tokens i.num_accepted_tokens
        i.num_decode_draft_tokens refl refl)
