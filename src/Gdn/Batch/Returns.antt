-- ===== src/Gdn/Batch/Returns.antt =====
-- The tests at the end of a batch that mixes the two kinds.
use v100_skinny_unify.Prelude.{
  ℕ, suc, ◌<◌, ◌≡◌, refl, sym, ap, ◌∙◌, Bool, true, false, Option, some, List, [], ◌∷◌, map, ◌==◌,
  ◌&&◌, arith,
}
use mathlib.Core.Path.{subst}
use v100_skinny_unify.Prelude.Lists.{length, get_elem?}
use v100_skinny_unify.Queries.{query_lens, last_or, total}
use v100_skinny_unify.Gdn.Contract.{
  Inputs, Contract, ensure, invert, build_gdn_spec_decode_state_contract,
}
use v100_skinny_unify.Gdn.Contract.Rows.{build_rows}
use v100_skinny_unify.Gdn.Contract.Totals.{Returns, Returns-some, >>=-Returns, pick-Returns}
use v100_skinny_unify.Gdn.Batch.{
  Counts, counts, cumsum, only_spec, mixed_tokens, ends_at, Batch, build_batch, captured,
}
use v100_skinny_unify.Gdn.Batch.Kinds.{lens_of, cumsum-last, zeros-lt}
use v100_skinny_unify.Gdn.Batch.Split.{
  CountsTokens, counts-CountsTokens, mixed-IsSplit, length-invert,
}
use v100_skinny_unify.Gdn.Batch.Mixed.{mixed}

-- A request that is not speculative and has tokens.
pub record HasOther (mask : List Bool) (lens : List ℕ) : Type 0 where
  pub request : ℕ
  pub tokens : ℕ
  pub is_other : get_elem? mask request ≡ some false
  pub has_tokens : get_elem? lens request ≡ some tokens
  pub some_token : 0 < tokens

only_spec-false :
    (mask : List Bool) (lens : List ℕ) (c : Counts)
    → CountsTokens mask lens c
    → HasOther mask lens
    → only_spec c ≡ false
only_spec-false mask lens c h o =
    let few = zeros-lt mask lens o.request o.tokens o.is_other o.has_tokens o.some_token in
    ground (arith, few, h.sorts)

some-Returns : {X : Type 0} (o : Option X) (x : X) → o ≡ some x → Returns o
some-Returns o x e = subst Returns (sym e) tt

counts-Returns :
    (legacy : Bool) (mask : List Bool) (lens : List ℕ)
    → length lens ≡ length mask
    → Returns (counts legacy mask lens)
unfolding counts
counts-Returns legacy mask lens same =
    >>=-Returns _ _ (pick-Returns (invert mask) lens (same ∙ sym (length-invert mask)))
      λ others e. tt

mixed_tokens-Returns :
    (c : Counts) (mask : List Bool) (lens : List ℕ)
    → length lens ≡ length mask
    → Returns (mixed_tokens c mask lens)
unfolding mixed_tokens
mixed_tokens-Returns c mask lens same = >>=-Returns _ _ (pick-Returns mask lens same) λ spec e.
    >>=-Returns _ _ (pick-Returns (invert mask) lens (same ∙ sym (length-invert mask)))
      λ others e'. tt

ends_at-cumsum : (ns : List ℕ) (n : ℕ) → n ≡ total ns → ends_at (some (cumsum 0 ns)) n ≡ true
ends_at-cumsum ns n e =
    let (first, rest, same, last) = cumsum-last 0 ns in
    ap (λ l. ends_at (some l) n) same ∙ ground (arith, last)

length-map : {X Y : Type 0} (f : X → Y) (xs : List X) → length (map f xs) ≡ length xs
length-map f [] = refl
length-map f (x ∷ xs) = ap suc (length-map f xs)

both_hold : (a : Bool) (n m : ℕ) → a ≡ true → n ≡ m → (a && n == m) ≡ true
both_hold a n m h e = ground arith

ensure-Returns : {X : Type 0} (test : Bool) (x : X) → test ≡ true → Returns (ensure test (some x))
unfolding ensure
ensure-Returns true x e = tt
ensure-Returns false x e = cc

module _ {A : Type 0} (is_pad : A → Bool) (pad : A) (i : Inputs A) (legacy for_capture : Bool)
    (query_start_loc_cpu query_start_loc : List ℕ) where
  -- Where the contract of the slots is returned and a request that is not speculative has tokens,
  -- the batch is returned: the tests at the end, on the last location of the speculative queries
  -- and on the rows of their states, do not fail. There is a mask entry for each request.
  pub build-IsTested :
      (contract : Contract A)
      → build_gdn_spec_decode_state_contract is_pad i ≡ some contract
      → length (query_lens query_start_loc_cpu) ≡ length i.masks
      → HasOther i.masks (query_lens query_start_loc_cpu)
      → (b : Batch A) × (build_batch is_pad pad i legacy for_capture query_start_loc_cpu
            query_start_loc
          ≡ some b)
  unfolding build_batch
  build-IsTested contract made same other =
      let lens = query_lens query_start_loc_cpu in
      Returns-some _ (
        >>=-Returns _ _ (some-Returns _ contract made) λ k e.
          >>=-Returns _ _ (counts-Returns legacy i.masks lens same) λ c e1.
            let h = counts-CountsTokens legacy i.masks lens c e1 in
            let both =
              mixed c i.num_spec i.masks lens (last_or 0 query_start_loc_cpu) query_start_loc
                (only_spec-false i.masks lens c h other) in
            >>=-Returns _ _ (subst Returns (sym both) (mixed_tokens-Returns c i.masks lens same))
              λ t e2.
                let split = mixed-IsSplit c i.masks lens t h (sym both ∙ e2) in
                let rows = (build_rows is_pad i e).0 in
                ensure-Returns _ _ (
                  both_hold _ _ _
                    (ap (λ l. ends_at l c.num_spec_decode_tokens) (split.locations true)
                      ∙ ends_at-cumsum (lens_of true i.masks lens) c.num_spec_decode_tokens h.spec)
                    (length-map (map (captured is_pad pad for_capture)) k.spec_state_indices
                      ∙ rows
                      ∙ sym h.requests)))
