-- ===== src/Gdn/Batch.antt =====
-- The batch of a step in `GDNAttentionMetadataBuilder.build` of fork_patches/gdn_attn.py, where it has
-- requests that are decoded speculatively and the builder does not take its fast path: which requests
-- these are, the counts, the tokens of the two kinds and their locations, and the tests at the end. An
-- exception is `none`. The tensors of the two kinds are indexed by a Boolean, true for speculative.
pub mod Kinds
pub mod Places
pub mod Split
pub mod Mixed
pub mod Returns
pub mod Masks
use v100_skinny_unify.Prelude.{
  ℕ, zero, suc, ◌+◌, ◌-◌, ◌*◌, min, Bool, true, false, not, Option, none, some, List, [], ◌∷◌, ◌++◌,
  map, ltb, ◌==◌, ◌&&◌, if◌then◌else◌,
}
use v100_skinny_unify.Prelude.Options.{◌>>=◌}
use v100_skinny_unify.Prelude.Lists.{length, take, drop, replicate}
use v100_skinny_unify.Prelude.Int.{ℤ, pos, negsuc, ◌+ℤ◌}
use v100_skinny_unify.Queries.{query_lens, last_or, total}
use v100_skinny_unify.Gdn.Contract.{
  Inputs, Contract, pick, invert, arange, ensure, build_gdn_spec_decode_state_contract,
}
use v100_skinny_unify.Gdn.Contract.Rows.{count}

unfoldable pub sum_ℤ : List ℤ → ℤ
sum_ℤ [] = pos 0
sum_ℤ (z ∷ zs) = z +ℤ sum_ℤ zs

abbrev pub is_zero : ℤ → Bool
is_zero (pos n) = n == 0
is_zero (negsuc n) = false

abbrev pub is_natural : ℤ → Bool
is_natural (pos n) = true
is_natural (negsuc n) = false

-- A mask that selects no request is no mask.
abbrev pub some_request : List Bool → Option (List Bool)
some_request mask = if count mask == 0 then none else some mask

-- Nor is one whose requests have no draft tokens.
unfoldable pub with_drafts : Option (List ℤ) → Option (List Bool) → Option (Option (List Bool))
unfolding pick sum_ℤ
with_drafts drafts none = some none
with_drafts none (some mask) = some (some mask)
with_drafts (some drafts) (some mask) = do
  chosen ← pick mask drafts
  some (if is_zero (sum_ℤ chosen) then none else some mask)

abbrev pub mask_of_drafts : Option (List ℤ) → Option (List Bool)
mask_of_drafts none = none
mask_of_drafts (some drafts) = some (map is_natural drafts)

abbrev pub or_mask : Option (List Bool) → Option (List ℤ) → Option (List Bool)
or_mask none drafts = mask_of_drafts drafts
or_mask (some mask) drafts = some mask

-- spec_sequence_masks_cpu in the end
unfoldable pub sequence_masks :
    Bool → Option (List Bool) → Option (List ℤ) → Option (Option (List Bool))
unfolding with_drafts count
sequence_masks false masks drafts = some none
sequence_masks true masks drafts = with_drafts drafts (or_mask masks drafts >>= some_request)

-- (lens == n).sum()
unfoldable pub count_equal : ℕ → List ℕ → ℕ
count_equal n [] = 0
count_equal n (x ∷ xs) = if x == n then suc (count_equal n xs) else count_equal n xs

pub record Counts : Type 0 where
  pub num_decodes : ℕ
  pub num_prefills : ℕ
  pub num_decode_tokens : ℕ
  pub num_prefill_tokens : ℕ
  pub num_spec_decodes : ℕ
  pub num_spec_decode_tokens : ℕ

-- `legacy` is VLLM_SM70_MTP_LEGACY_GDN_MIXED_DECODE_ROUTING.
unfoldable pub counts : Bool → List Bool → List ℕ → Option Counts
unfolding pick invert count_equal total count
counts legacy mask lens = do
  others ← pick (invert mask) lens
  let decodes = if legacy then count_equal 1 others else 0
  some (record {
    num_decodes = decodes;
    num_prefills = length others - decodes - count_equal 0 others;
    num_decode_tokens = decodes;
    num_prefill_tokens = total others - decodes;
    num_spec_decodes = count mask;
    num_spec_decode_tokens = total lens - (total others - decodes) - decodes;
  })

-- repeat_interleave(mask, lens)
unfoldable pub repeat_mask : List Bool → List ℕ → List Bool
repeat_mask (b ∷ mask) (n ∷ lens) = replicate n b ++ repeat_mask mask lens
repeat_mask _ _ = []

abbrev pub same_kind : Bool → Bool → Bool
same_kind true b = b
same_kind false b = not b

-- The places of one kind, from place t on.
unfoldable pub places : Bool → ℕ → List Bool → List ℕ
places kind t [] = []
places kind t (b ∷ mask) =
    if same_kind kind b then t ∷ places kind (suc t) mask else places kind (suc t) mask

-- argsort(mask, stable=True): False comes before True.
unfoldable pub argsort : List Bool → List ℕ
unfolding places
argsort mask = places false 0 mask ++ places true 0 mask

-- cumsum, after a first 0 (here `start`)
unfoldable pub cumsum : ℕ → List ℕ → List ℕ
cumsum start [] = start ∷ []
cumsum start (n ∷ ns) = start ∷ cumsum (start + n) ns

-- By kind: the tokens and the locations of the queries in them.
pub record Tokens : Type 0 where
  pub indx : Bool → List ℕ
  pub locations : Bool → Option (List ℕ)

abbrev pub by_kind {ℓ} : {A : Type ℓ} → A → A → Bool → A
by_kind spec non_spec true = spec
by_kind spec non_spec false = non_spec

abbrev pub only_spec : Counts → Bool
only_spec c = c.num_prefills == 0 && c.num_decodes == 0

-- Where only speculative requests have tokens.
unfoldable pub spec_tokens : Counts → ℕ → ℕ → List ℕ → Tokens
unfolding arange
spec_tokens c num_spec last query_start_loc = record {
  indx = by_kind (arange 0 (min (c.num_spec_decodes * (num_spec + 1)) last)) [];
  locations = by_kind (some (take (c.num_spec_decodes + 1) query_start_loc)) none;
}

unfoldable pub mixed_tokens : Counts → List Bool → List ℕ → Option Tokens
unfolding argsort repeat_mask cumsum pick invert
mixed_tokens c mask lens = do
  spec ← pick mask lens
  others ← pick (invert mask) lens
  let index = argsort (repeat_mask mask lens)
  let num_non_spec_tokens = c.num_prefill_tokens + c.num_decode_tokens
  some (record {
    indx = by_kind (drop num_non_spec_tokens index) (take num_non_spec_tokens index);
    locations = by_kind (some (cumsum 0 spec)) (some (cumsum 0 others));
  })

unfoldable pub split_tokens : Counts → ℕ → List Bool → List ℕ → ℕ → List ℕ → Option Tokens
unfolding spec_tokens mixed_tokens
split_tokens c num_spec mask lens last query_start_loc =
    if only_spec c
    then some (spec_tokens c num_spec last query_start_loc)
    else mixed_tokens c mask lens

-- spec_query_start_loc[-1], where spec_query_start_loc is not None
abbrev pub ends_at : Option (List ℕ) → ℕ → Bool
ends_at none n = false
ends_at (some []) n = false
ends_at (some (a ∷ locs)) n = last_or a locs == n

pub record Batch (A : Type 0) : Type 0 where
  pub counts : Counts
  pub tokens : Tokens
  pub spec_state_indices : List (List A)
  pub non_spec_state_indices : Option (List A)
  pub contract : Contract A

module _ {A : Type 0} (is_pad : A → Bool) (pad : A) where
  -- A capture must not touch a live slot.
  abbrev pub captured : Bool → A → A
  captured true a = pad
  captured false a = a

  unfoldable pub build_batch : Inputs A → Bool → Bool → List ℕ → List ℕ → Option (Batch A)
  unfolding build_gdn_spec_decode_state_contract counts split_tokens query_lens ensure
  build_batch i legacy for_capture query_start_loc_cpu query_start_loc = do
    contract ← build_gdn_spec_decode_state_contract is_pad i
    let lens = query_lens query_start_loc_cpu
    c ← counts legacy i.masks lens
    tokens ← split_tokens c i.num_spec i.masks lens (last_or 0 query_start_loc_cpu) query_start_loc
    let states = map (map (captured for_capture)) contract.spec_state_indices
    ensure
        (ends_at (tokens.locations true) c.num_spec_decode_tokens
          && length states == c.num_spec_decodes)
        (some (record {
          counts = c;
          tokens = tokens;
          spec_state_indices = states;
          non_spec_state_indices =
              if only_spec c
              then none
              else some (map (captured for_capture) contract.non_spec_state_indices);
          contract = contract;
        }))
