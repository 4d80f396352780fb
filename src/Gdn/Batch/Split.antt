-- ===== src/Gdn/Batch/Split.antt =====
-- A batch that mixes the two kinds: where each token goes, and that the tests at the end pass.
use v100_skinny_unify.Prelude.{
  ℕ, zero, suc, ◌+◌, ◌≤◌, ◌≡◌, refl, sym, ap, ◌∙◌, Bool, true, false, none, some, List, [], ◌∷◌,
  ◌++◌, map, ◌==◌, ◌&&◌, if◌then◌else◌, arith,
}
use mathlib.Core.Path.{subst}
use v100_skinny_unify.Prelude.Options.{>>=-first, some_injective}
use v100_skinny_unify.Prelude.Lists.{length, take, drop}
use v100_skinny_unify.Queries.{query_lens, last_or, total}
use v100_skinny_unify.Gdn.Contract.{
  Inputs, Contract, pick, invert, ensure, build_gdn_spec_decode_state_contract,
}
use v100_skinny_unify.Gdn.Contract.Rows.{count, length-pick}
use v100_skinny_unify.Gdn.Batch.{
  count_equal, Counts, counts, repeat_mask, places, argsort, cumsum, Tokens, only_spec,
  mixed_tokens, by_kind, split_tokens, ends_at, Batch, build_batch, captured,
}
use v100_skinny_unify.Gdn.Batch.Kinds.{
  lens_of, pick-lens_of, lens_of-invert, total-lens_of, count_equal-le, ones_and_zeros,
}
use v100_skinny_unify.Gdn.Batch.Places.{length-places}

take-left : (n : ℕ) (xs ys : List ℕ) → n ≡ length xs → take n (xs ++ ys) ≡ xs
take-left zero [] ys e = refl
take-left zero (x ∷ xs) ys e = absurd (omega arith)
take-left (suc n) [] ys e = absurd (omega arith)
take-left (suc n) (x ∷ xs) ys e = ap (λ l. x ∷ l) (take-left n xs ys (omega arith))

drop-left : (n : ℕ) (xs ys : List ℕ) → n ≡ length xs → drop n (xs ++ ys) ≡ ys
drop-left zero [] ys e = refl
drop-left zero (x ∷ xs) ys e = absurd (omega arith)
drop-left (suc n) [] ys e = absurd (omega arith)
drop-left (suc n) (x ∷ xs) ys e = drop-left n xs ys (omega arith)

-- The counts of tokens are those of the two kinds.
pub record CountsTokens (mask : List Bool) (lens : List ℕ) (c : Counts) : Type 0 where
  pub same : length mask ≡ length lens
  pub others : c.num_prefill_tokens + c.num_decode_tokens ≡ total (lens_of false mask lens)
  pub spec : c.num_spec_decode_tokens ≡ total (lens_of true mask lens)
  pub requests : c.num_spec_decodes ≡ count mask
  pub sorts :
      c.num_decodes + c.num_prefills + count_equal 0 (lens_of false mask lens)
      ≡ length (lens_of false mask lens)

pick_others :
    (mask : List Bool) (lens others : List ℕ)
    → pick (invert mask) lens ≡ some others
    → others ≡ lens_of false mask lens
pick_others mask lens others e = pick-lens_of (invert mask) lens others e ∙ lens_of-invert mask lens

pub length-invert : (mask : List Bool) → length (invert mask) ≡ length mask
unfolding invert
length-invert [] = refl
length-invert (b ∷ mask) = ap suc (length-invert mask)

none_or_ones :
    (test : Bool) (ns : List ℕ)
    → (if test then count_equal 1 ns else 0) + count_equal 0 ns ≤ length ns
none_or_ones test ns = ground (arith, ones_and_zeros ns)

if_le : (test : Bool) (a n : ℕ) → a ≤ n → (if test then a else 0) ≤ n
if_le test a n le = ground arith

pub counts-CountsTokens :
    (legacy : Bool) (mask : List Bool) (lens : List ℕ) (c : Counts)
    → counts legacy mask lens ≡ some c
    → CountsTokens mask lens c
unfolding counts
counts-CountsTokens legacy mask lens c e =
    let (others, found, e') = >>=-first (pick (invert mask) lens) _ e in
    let same : length mask ≡ length lens =
      sym (length-invert mask) ∙ (length-pick (invert mask) lens found).0 in
    let are = pick_others mask lens others found in
    let sum = total-lens_of mask lens same in
    let few = if_le legacy (count_equal 1 others) (total others) (count_equal-le others) in
    let is = some_injective e' in
    let t : total others ≡ total (lens_of false mask lens) = ap total are in
    subst (CountsTokens mask lens) is (record {
      same = same;
      others = omega (arith, few, t);
      spec = omega (arith, few, t, sum);
      requests = refl;
      sorts = omega (arith, none_or_ones legacy others, ap length are, ap (count_equal 0) are);
    })

-- The tokens of each kind in their order, with the locations of the queries among them.
pub record IsSplit (mask : List Bool) (lens : List ℕ) (t : Tokens) : Type 0 where
  pub indx : (kind : Bool) → t.indx kind ≡ places kind 0 (repeat_mask mask lens)
  pub locations : (kind : Bool) → t.locations kind ≡ some (cumsum 0 (lens_of kind mask lens))

each_kind : (P : Bool → Type 0) → P true → P false → (kind : Bool) → P kind
each_kind P p q true = p
each_kind P p q false = q

pub mixed-IsSplit :
    (c : Counts) (mask : List Bool) (lens : List ℕ) (t : Tokens)
    → CountsTokens mask lens c
    → mixed_tokens c mask lens ≡ some t
    → IsSplit mask lens t
unfolding mixed_tokens argsort
mixed-IsSplit c mask lens t h e =
    let (spec, found, e') = >>=-first (pick mask lens) _ e in
    let (others, found', e'') = >>=-first (pick (invert mask) lens) _ e' in
    let xs = places false 0 (repeat_mask mask lens) in
    let ys = places true 0 (repeat_mask mask lens) in
    let n = c.num_prefill_tokens + c.num_decode_tokens in
    let many : n ≡ length xs = h.others ∙ sym (length-places false 0 mask lens) in
    let made : Tokens = record {
      indx = by_kind (drop n (xs ++ ys)) (take n (xs ++ ys));
      locations = by_kind (some (cumsum 0 spec)) (some (cumsum 0 others));
    } in
    subst (IsSplit mask lens) (some_injective e'') (record {
      indx =
          each_kind (λ kind. made.indx kind ≡ places kind 0 (repeat_mask mask lens))
            (drop-left n xs ys many) (take-left n xs ys many);
      locations =
          each_kind (λ kind. made.locations kind ≡ some (cumsum 0 (lens_of kind mask lens)))
            (ap (λ l. some (cumsum 0 l)) (pick-lens_of mask lens spec found))
            (ap (λ l. some (cumsum 0 l)) (pick_others mask lens others found'));
    })

module _ {A : Type 0} (is_pad : A → Bool) (pad : A) (i : Inputs A) (legacy for_capture : Bool)
    (query_start_loc_cpu query_start_loc : List ℕ) where
  lens : List ℕ
  lens = query_lens query_start_loc_cpu

  -- What is returned, before the tests.
  abbrev assembled : Contract A → Counts → Tokens → Batch A
  assembled contract c tokens = record {
    counts = c;
    tokens = tokens;
    spec_state_indices = map (map (captured is_pad pad for_capture)) contract.spec_state_indices;
    non_spec_state_indices =
        if only_spec c
        then none
        else some (map (captured is_pad pad for_capture) contract.non_spec_state_indices);
    contract = contract;
  }

  pub record Parts (b : Batch A) : Type 0 where
    pub contract : build_gdn_spec_decode_state_contract is_pad i ≡ some b.contract
    pub counted : counts legacy i.masks (query_lens query_start_loc_cpu) ≡ some b.counts
    pub split :
        split_tokens b.counts i.num_spec i.masks
          (query_lens query_start_loc_cpu)
          (last_or 0 query_start_loc_cpu)
          query_start_loc
        ≡ some b.tokens
    pub tested :
        (ends_at (b.tokens.locations true) b.counts.num_spec_decode_tokens
          && length b.spec_state_indices == b.counts.num_spec_decodes)
        ≡ true

  ensured :
      {X : Type 0} (test : Bool) (x y : X) → ensure test (some x) ≡ some y → (test ≡ true) × (x ≡ y)
  unfolding ensure
  ensured true x y e = (refl, some_injective e)
  ensured false x y e = cc

  pub build-Parts :
      (b : Batch A)
      → build_batch is_pad pad i legacy for_capture query_start_loc_cpu query_start_loc ≡ some b
      → Parts b
  unfolding build_batch
  build-Parts b e =
      let (contract, e1, n1) = >>=-first (build_gdn_spec_decode_state_contract is_pad i) _ e in
      let (c, e2, n2) = >>=-first (counts legacy i.masks (query_lens query_start_loc_cpu)) _ n1 in
      let (tokens, e3, n3) =
        >>=-first
          (split_tokens c i.num_spec i.masks (query_lens query_start_loc_cpu)
            (last_or 0 query_start_loc_cpu) query_start_loc)
          _ n2 in
      let (passed, same) = ensured _ (assembled contract c tokens) b n3 in
      subst Parts same (record { contract = e1; counted = e2; split = e3; tested = passed })
