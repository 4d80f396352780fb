-- ===== src/Gdn/Batch/Mixed.antt =====
-- A batch that mixes speculative requests with others that have tokens.
use v100_skinny_unify.Prelude.{
  ℕ, zero, suc, ◌+◌, ◌<◌, ◌≡◌, sym, ap, ap₂, ◌∙◌, Bool, false, some, List, [], ◌∷◌, if_false, arith,
}
use v100_skinny_unify.Prelude.Lists.{length, get_elem?}
use v100_skinny_unify.Queries.{query_lens, IsMonotone, last_or, total, location-total}
use v100_skinny_unify.Gdn.Contract.{Inputs}
use v100_skinny_unify.Gdn.Batch.{
  count_equal, Counts, counts, cumsum, Tokens, only_spec, mixed_tokens, split_tokens, Batch,
  build_batch,
}
use v100_skinny_unify.Gdn.Batch.Kinds.{
  lens_of, total-lens_of, before, rank, get-cumsum, length-lens_of,
}
use v100_skinny_unify.Gdn.Batch.Places.{get-places}
use v100_skinny_unify.Gdn.Batch.Split.{counts-CountsTokens, IsSplit, mixed-IsSplit, build-Parts}

get-lt : {A : Type 0} (xs : List A) (i : ℕ) (x : A) → get_elem? xs i ≡ some x → i < length xs
get-lt [] i x e = cc
get-lt (y ∷ xs) zero x e = omega arith
get-lt (y ∷ xs) (suc i) x e = omega (arith, get-lt xs i x e)

-- Token j of a request: the lists of its kind say where it stands among the tokens of that kind, and
-- there stands its place in the batch.
pub record IsPlaced (kind : Bool) (mask : List Bool) (r j place : ℕ) (t : Tokens) : Type 0 where
  pub locs : List ℕ
  pub start : ℕ
  pub has_locs : t.locations kind ≡ some locs
  pub starts : get_elem? locs (rank kind mask r) ≡ some start
  pub stands : get_elem? (t.indx kind) (start + j) ≡ some place

split-IsPlaced :
    (kind : Bool) (mask : List Bool) (rest : List ℕ) (r j n loc : ℕ) (t : Tokens)
    → let lens = query_lens (0 ∷ rest) in
      IsSplit mask lens t
      → length mask ≡ length lens
      → IsMonotone (0 ∷ rest)
      → get_elem? mask r ≡ some kind
      → get_elem? lens r ≡ some n
      → get_elem? (0 ∷ rest) r ≡ some loc
      → j < n
      → IsPlaced kind mask r j (loc + j) t
split-IsPlaced kind mask rest r j n loc t split same rising em en el lt =
    let lens = query_lens (0 ∷ rest) in
    let inside = get-lt lens r n en in
    record {
      locs = cumsum 0 (lens_of kind mask lens);
      start = 0 + before kind mask lens r;
      has_locs = split.locations kind;
      starts = get-cumsum kind 0 mask lens r same (omega arith);
      stands =
          ap₂ get_elem? (split.indx kind) (omega arith)
          ∙ get-places kind 0 mask lens r j n em en lt
          ∙ ap some (omega (arith, location-total 0 r loc rest rising inside el));
    }

pub mixed :
    (c : Counts) (num_spec : ℕ) (mask : List Bool) (lens : List ℕ) (last : ℕ) (qsl : List ℕ)
    → only_spec c ≡ false
    → split_tokens c num_spec mask lens last qsl ≡ mixed_tokens c mask lens
unfolding split_tokens
mixed c num_spec mask lens last qsl e = if_false (only_spec c) _ _ e

module _ {A : Type 0} (is_pad : A → Bool) (pad : A) (i : Inputs A) (legacy for_capture : Bool)
    (rest query_start_loc : List ℕ) where
  -- In a batch that mixes the two kinds every token is found again: for token j of a request of
  -- either kind, the request's location among the queries of its kind plus j is where the list of
  -- tokens of that kind holds the token's place in the batch. The locations on the CPU rise from 0.
  pub build-IsPlaced :
      (kind : Bool) (r j n loc : ℕ) (b : Batch A)
      → build_batch is_pad pad i legacy for_capture (0 ∷ rest) query_start_loc ≡ some b
      → only_spec b.counts ≡ false
      → IsMonotone (0 ∷ rest)
      → get_elem? i.masks r ≡ some kind
      → get_elem? (query_lens (0 ∷ rest)) r ≡ some n
      → get_elem? (0 ∷ rest) r ≡ some loc
      → j < n
      → IsPlaced kind i.masks r j (loc + j) b.tokens
  build-IsPlaced kind r j n loc b e both rising em en el lt =
      let parts = build-Parts is_pad pad i legacy for_capture (0 ∷ rest) query_start_loc b e in
      let lens = query_lens (0 ∷ rest) in
      let h = counts-CountsTokens legacy i.masks lens b.counts parts.counted in
      let split =
        sym (mixed b.counts i.num_spec i.masks lens (last_or 0 (0 ∷ rest)) query_start_loc both)
        ∙ parts.split in
      split-IsPlaced kind i.masks rest r j n loc b.tokens
        (mixed-IsSplit b.counts i.masks lens b.tokens h split) h.same rising em en el lt

-- The counts leave out no token and no request: the tokens of the prefills, the decodes and the
-- speculative requests are all tokens of the batch, and the requests of the three sorts and those
-- without tokens that are not speculative are all its requests.
pub counts-cover :
    (legacy : Bool) (mask : List Bool) (lens : List ℕ) (c : Counts)
    → counts legacy mask lens ≡ some c
    → (c.num_prefill_tokens + c.num_decode_tokens + c.num_spec_decode_tokens ≡ total lens)
      × (c.num_decodes
            + c.num_prefills
            + c.num_spec_decodes
            + count_equal 0 (lens_of false mask lens)
          ≡ length mask)
counts-cover legacy mask lens c e =
    let h = counts-CountsTokens legacy mask lens c e in
    (
      omega (arith, h.others, h.spec, total-lens_of mask lens h.same),
      omega (arith, h.sorts, h.requests, length-lens_of mask lens h.same),
    )
