-- ===== src/Gdn/Contract.antt =====
-- `gather_gdn_state_block_ids`, `select_gdn_state_block_ids` and
-- `build_gdn_spec_decode_state_contract` of fork_patches/gdn_attn.py. An exception is `none`. A block
-- id is of the section's type `A`, since PAD_SLOT_ID is a constant of the vLLM package. Where the
-- source subtracts 1 and clamps at 0, subtraction stops at 0. Rows are combined pairwise for lists
-- of one length, which those of one batch are.
pub mod Rows
pub mod Slots
pub mod Totals
pub mod Returns
use v100_skinny_unify.Prelude.{
  ℕ, zero, suc, ◌+◌, ◌-◌, ◌*◌, ◌/◌, min, Bool, true, false, not, Option, none, some, List, [], ◌∷◌,
  map, ltb, leb, ◌==◌, ◌&&◌, ◌||◌, if◌then◌else◌,
}
use v100_skinny_unify.Prelude.Lists.{length, get_elem?, take}
use v100_skinny_unify.Prelude.Options.{◌>>=◌}

-- A two-dimensional tensor: shape[1] and the rows.
pub record Table (A : Type 0) : Type 0 where
  pub width : ℕ
  pub rows : List (List A)

-- xs[mask], an IndexError for a mask of another length
unfoldable pub pick : {X : Type 0} → List Bool → List X → Option (List X)
unfolding ◌>>=◌
pick [] [] = some []
pick (true ∷ mask) (x ∷ xs) = do rest ← pick mask xs; some (x ∷ rest)
pick (false ∷ mask) (x ∷ xs) = pick mask xs
pick _ _ = none

-- ~mask
unfoldable pub invert : List Bool → List Bool
invert mask = map not mask

unfoldable pub zip_rows : {X Y Z : Type 0} → (X → Y → Option Z) → List X → List Y → Option (List Z)
unfolding ◌>>=◌
zip_rows f [] [] = some []
zip_rows f (x ∷ xs) (y ∷ ys) = do z ← f x y; rest ← zip_rows f xs ys; some (z ∷ rest)
zip_rows f _ _ = none

unfoldable pub traverse : {X Y : Type 0} → (X → Option Y) → List X → Option (List Y)
unfolding ◌>>=◌
traverse f [] = some []
traverse f (x ∷ xs) = do y ← f x; rest ← traverse f xs; some (y ∷ rest)

-- [0, …, n - 1] from `start` on
unfoldable pub arange : ℕ → ℕ → List ℕ
arange start zero = []
arange start (suc n) = start ∷ arange (start + 1) n

-- The column of a row: the accepted tokens less one, between 0 and the last slot.
unfoldable pub state_offset : (accepted num_spec width : ℕ) → ℕ
state_offset accepted num_spec width = min (accepted - 1) (min num_spec (width - 1))

module _ {A : Type 0} where
  unfoldable pub pick_rows : List Bool → Table A → Option (Table A)
  unfolding pick
  pick_rows mask t = do rows ← pick mask t.rows; some (record t { rows = rows })

  -- t[:, :n]
  unfoldable pub columns : ℕ → Table A → Table A
  columns n t = record { width = min n t.width; rows = map (take n) t.rows }

  -- One row of the gather: the blocks from the current one on, clamped to the last column.
  unfoldable pub gather_row : (block_size width columns seq_len : ℕ) → List A → Option (List A)
  unfolding traverse arange
  gather_row block_size width columns seq_len row =
      let current = (seq_len - 1) / block_size in
      traverse (λ offset. get_elem? row (min (current + offset) (columns - 1))) (arange 0 width)

  unfoldable pub gather_gdn_state_block_ids :
      Table A → (seq_lens : List ℕ) (block_size width : ℕ) → Option (List (List A))
  gather_gdn_state_block_ids t seq_lens block_size width =
      zip_rows (λ row seq_len. gather_row block_size width t.width seq_len row) t.rows seq_lens

  -- block_table[:, 0]
  unfoldable pub first_column : Table A → Option (List A)
  first_column t = traverse (λ row. get_elem? row 0) t.rows

  -- `legacy` is VLLM_SM70_MTP_LEGACY_GDN_NON_SPEC_SLOT0.
  unfoldable pub select_gdn_state_block_ids :
      (legacy : Bool) → Table A → Option (List ℕ) → (num_spec : ℕ) → Option (List A)
  select_gdn_state_block_ids true t accepted num_spec = first_column t
  select_gdn_state_block_ids false t none num_spec = first_column t
  select_gdn_state_block_ids false t (some accepted) num_spec =
      zip_rows (λ row a. get_elem? row (state_offset a num_spec t.width)) t.rows accepted

pub record Inputs (A : Type 0) : Type 0 where
  pub block_table : Table A
  pub seq_lens : List ℕ
  pub block_size : ℕ
  pub num_spec : ℕ
  pub masks : List Bool
  pub num_accepted_tokens : List ℕ
  pub current : Option (Table A)
  pub is_mamba_cache_all : Bool
  pub selectors : Option (List ℕ)
  pub legacy : Bool
  pub assert_contract : Bool

pub record Contract (A : Type 0) : Type 0 where
  pub spec_state_indices : List (List A)
  pub non_spec_state_indices : List A
  pub num_accepted_tokens : List ℕ
  pub spec_state_slot_selectors : List ℕ

-- 1 <= x <= num_spec + 1 for every x
unfoldable pub all_in_range : ℕ → List ℕ → Bool
all_in_range num_spec [] = true
all_in_range num_spec (x ∷ xs) = leb 1 x && leb x (num_spec + 1) && all_in_range num_spec xs

-- not torch.any(xs == PAD_SLOT_ID)
unfoldable pub none_padded : {A : Type 0} → (A → Bool) → List A → Bool
none_padded is_pad [] = true
none_padded is_pad (x ∷ xs) = not (is_pad x) && none_padded is_pad xs

unfoldable pub no_row_padded : {A : Type 0} → (A → Bool) → List (List A) → Bool
no_row_padded is_pad [] = true
no_row_padded is_pad (row ∷ rows) = none_padded is_pad row && no_row_padded is_pad rows

-- spec_state_indices_tensor.numel() > 0
unfoldable pub has_slots : {A : Type 0} → List (List A) → Bool
has_slots [] = false
has_slots (row ∷ rows) = ltb 0 (length row) || has_slots rows

-- raise AssertionError unless the test holds
unfoldable pub ensure : {X : Type 0} → Bool → Option X → Option X
ensure true next = next
ensure false next = none

abbrev pub default : {X : Type 0} → X → Option X → X
default d none = d
default d (some x) = x

module _ {A : Type 0} (is_pad : A → Bool) (i : Inputs A) where
  unfoldable pub from_current : Table A → Option (List (List A) × List A)
  from_current ids = do
    let state_ids = columns (i.num_spec + 1) ids
    spec ← pick i.masks state_ids.rows
    source ← pick_rows (invert i.masks) state_ids
    accepted ← pick (invert i.masks) i.num_accepted_tokens
    non_spec ← select_gdn_state_block_ids i.legacy source (some accepted) i.num_spec
    some (spec, non_spec)

  unfoldable pub from_cache_all : Option (List (List A) × List A)
  from_cache_all = do
    spec_table ← pick_rows i.masks i.block_table
    spec_lens ← pick i.masks i.seq_lens
    spec ← gather_gdn_state_block_ids spec_table spec_lens i.block_size (i.num_spec + 1)
    other_table ← pick_rows (invert i.masks) i.block_table
    other_lens ← pick (invert i.masks) i.seq_lens
    other ← gather_gdn_state_block_ids other_table other_lens i.block_size 1
    non_spec ← traverse (λ row. get_elem? row 0) other
    some (spec, non_spec)

  unfoldable pub from_block_table : Option (List (List A) × List A)
  from_block_table = do
    spec ← pick i.masks (columns (i.num_spec + 1) i.block_table).rows
    source ← pick_rows (invert i.masks) i.block_table
    accepted ← pick (invert i.masks) i.num_accepted_tokens
    non_spec ← select_gdn_state_block_ids i.legacy source (some accepted) i.num_spec
    some (spec, non_spec)

  unfoldable pub state_indices : Option (Table A) → Option (List (List A) × List A)
  state_indices (some ids) = from_current ids
  state_indices none = if i.is_mamba_cache_all then from_cache_all else from_block_table

  -- The last test, on the active rows of `current_state_block_ids`.
  unfoldable pub current_unpadded : Option (Table A) → Contract A → Option (Contract A)
  current_unpadded none c = some c
  current_unpadded (some ids) c = do
    active ← pick i.masks (columns (i.num_spec + 1) ids).rows
    ensure (no_row_padded is_pad active) (some c)

  -- The test of the slots that are selected.
  unfoldable pub slots_unpadded : Contract A → Option (Contract A) → Option (Contract A)
  slots_unpadded c next = do
    slots ←
        zip_rows (λ row s. get_elem? row (s - 1)) c.spec_state_indices c.spec_state_slot_selectors
    ensure (none_padded is_pad slots) next

  -- The tests under VLLM_SM70_GDN_STATE_CONTRACT_ASSERT.
  unfoldable pub checked : Contract A → Option (Contract A)
  checked c = ensure (length c.num_accepted_tokens == length c.spec_state_indices) (
      ensure (length c.spec_state_slot_selectors == length c.spec_state_indices) (
        ensure (all_in_range i.num_spec c.num_accepted_tokens) (
          ensure (all_in_range i.num_spec c.spec_state_slot_selectors) (
            let rest = current_unpadded i.current c in
            if has_slots c.spec_state_indices then slots_unpadded c rest else rest))))

  unfoldable pub build_gdn_spec_decode_state_contract : Option (Contract A)
  build_gdn_spec_decode_state_contract = do
    (spec, non_spec) ← state_indices i.current
    accepted ← pick i.masks i.num_accepted_tokens
    selectors ← pick i.masks (default i.num_accepted_tokens i.selectors)
    let c : Contract A = record {
      spec_state_indices = spec;
      non_spec_state_indices = non_spec;
      num_accepted_tokens = accepted;
      spec_state_slot_selectors = selectors;
    }
    if i.assert_contract then checked c else some c
