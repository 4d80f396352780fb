-- ===== src/Gdn/Examples.antt =====
-- The theorems on the Gated DeltaNet metadata at concrete inputs: three requests, the first and the
-- last decoded speculatively, two speculative tokens. Block 0 is the padding.
mod Buffers
mod Decodes
mod FastBuild
use v100_skinny_unify.Prelude.Options.{◌>>=◌}
use v100_skinny_unify.Prelude.{
  ℕ, ◌+◌, ◌≤◌, ◌≡◌, refl, Bool, true, false, none, some, [], ◌∷◌, ◌==◌, arith, inr,
}
use v100_skinny_unify.Prelude.Lists.{length, get_elem?}
use v100_skinny_unify.Gdn.Contract.{
  Table, Inputs, Contract, select_gdn_state_block_ids, build_gdn_spec_decode_state_contract,
  all_in_range, checked, has_slots, slots_unpadded, columns, current_unpadded, ensure,
  from_block_table, invert, none_padded, pick, pick_rows, state_indices, state_offset, zip_rows,
}
use v100_skinny_unify.Gdn.Contract.Rows.{count, build_rows}
use v100_skinny_unify.Gdn.Contract.Slots.{IsSelected, build-SelectsSlots}
use v100_skinny_unify.Gdn.Contract.Returns.{IsTable, IsBatch, build-Returns}
use v100_skinny_unify.Gdn.Metadata.{SpecTensors, registered_tensors}
use v100_skinny_unify.Gdn.Metadata.Registry.{registered-device}
use v100_skinny_unify.Prelude.{◌<◌, List}
use v100_skinny_unify.Prelude.Int.{ℤ, pos, negsuc, ◌+ℤ◌}
use v100_skinny_unify.Queries.{query_lens, total}
use v100_skinny_unify.Gdn.Batch.{
  Batch, Counts, by_kind, counts, count_equal, build_batch, split_tokens, mixed_tokens, argsort,
  places, repeat_mask, cumsum, sequence_masks, with_drafts, sum_ℤ, or_mask,
}
use v100_skinny_unify.Gdn.Batch.Kinds.{lens_of}
use v100_skinny_unify.Gdn.Batch.Mixed.{IsPlaced, build-IsPlaced, counts-cover}
use v100_skinny_unify.Gdn.Batch.Returns.{build-IsTested}
use v100_skinny_unify.Gdn.Batch.Masks.{HaveDrafts, sequence_masks-HaveDrafts}

abbrev padded : ℕ → Bool
padded a = a == 0

abbrev blocks : Table ℕ
blocks = record {
  width = 4;
  rows = (11 ∷ 12 ∷ 13 ∷ 14 ∷ []) ∷ (21 ∷ 22 ∷ 23 ∷ 24 ∷ []) ∷ (31 ∷ 32 ∷ 33 ∷ 34 ∷ []) ∷ [];
}

abbrev inputs : Inputs ℕ
inputs = record {
  block_table = blocks;
  seq_lens = 20 ∷ 30 ∷ 40 ∷ [];
  block_size = 16;
  num_spec = 2;
  masks = true ∷ false ∷ true ∷ [];
  num_accepted_tokens = 1 ∷ 2 ∷ 3 ∷ [];
  current = none;
  is_mamba_cache_all = false;
  selectors = none;
  legacy = false;
  assert_contract = true;
}

abbrev contract : Contract ℕ
contract = record {
  spec_state_indices = (11 ∷ 12 ∷ 13 ∷ []) ∷ (31 ∷ 32 ∷ 33 ∷ []) ∷ [];
  non_spec_state_indices = 22 ∷ [];
  num_accepted_tokens = 1 ∷ 3 ∷ [];
  spec_state_slot_selectors = 1 ∷ 3 ∷ [];
}

built : build_gdn_spec_decode_state_contract padded inputs ≡ some contract
unfolding build_gdn_spec_decode_state_contract ◌>>=◌ state_indices from_block_table pick columns
    pick_rows invert select_gdn_state_block_ids zip_rows state_offset checked ensure all_in_range
    none_padded current_unpadded has_slots slots_unpadded
built = refl

build-SelectsSlots_example : IsSelected padded inputs (31 ∷ 32 ∷ 33 ∷ 34 ∷ []) 3
build-SelectsSlots_example =
    build-SelectsSlots padded inputs blocks 2 (31 ∷ 32 ∷ 33 ∷ 34 ∷ []) 3 refl built
      (inr (refl, refl, refl)) refl refl refl (omega arith)

blocks-IsTable : IsTable 3 blocks
blocks-IsTable = record {
  some_column = omega arith;
  wide = (refl, (refl, (refl, tt)));
  per_request = refl;
}

-- The slots of the cache of all blocks, with the tests off.
abbrev cache_all : Inputs ℕ
cache_all = record inputs { is_mamba_cache_all = true; assert_contract = false }

cache_all-IsBatch : IsBatch cache_all
cache_all-IsBatch = record {
  block_table = blocks-IsTable;
  current = λ ids h. absurd (ground arith);
  seq_lens = refl;
  accepted = refl;
  selectors = refl;
}

build-Returns_example :
    (c : Contract ℕ) × (build_gdn_spec_decode_state_contract padded cache_all ≡ some c)
build-Returns_example = build-Returns padded cache_all cache_all-IsBatch refl

-- The first and the last request verify two drafts, the one between has two tokens of its prompt.
abbrev locations : List ℕ
locations = 0 ∷ 3 ∷ 5 ∷ 8 ∷ []

abbrev batch : Batch ℕ
batch = record {
  counts = record {
    num_decodes = 0;
    num_prefills = 1;
    num_decode_tokens = 0;
    num_prefill_tokens = 2;
    num_spec_decodes = 2;
    num_spec_decode_tokens = 6;
  };
  tokens = record {
    indx = by_kind (0 ∷ 1 ∷ 2 ∷ 5 ∷ 6 ∷ 7 ∷ []) (3 ∷ 4 ∷ []);
    locations = by_kind (some (0 ∷ 3 ∷ 6 ∷ [])) (some (0 ∷ 2 ∷ []));
  };
  spec_state_indices = (11 ∷ 12 ∷ 13 ∷ []) ∷ (31 ∷ 32 ∷ 33 ∷ []) ∷ [];
  non_spec_state_indices = some (22 ∷ []);
  contract = contract;
}

assembled : build_batch padded 0 inputs false false locations locations ≡ some batch
unfolding build_batch build_gdn_spec_decode_state_contract ◌>>=◌ state_indices from_block_table pick
    columns pick_rows invert select_gdn_state_block_ids zip_rows state_offset checked ensure
    all_in_range none_padded current_unpadded has_slots slots_unpadded counts count_equal total
    count query_lens split_tokens mixed_tokens argsort places repeat_mask cumsum
assembled = refl

third_length : get_elem? (query_lens locations) 2 ≡ some 3
unfolding query_lens
third_length = refl

build-IsPlaced_example : IsPlaced true (true ∷ false ∷ true ∷ []) 2 1 6 batch.tokens
build-IsPlaced_example =
    build-IsPlaced padded 0 inputs false false (3 ∷ 5 ∷ 8 ∷ []) locations true 2 1 3 5 batch
      assembled refl (omega arith, (omega arith, (omega arith, tt))) refl third_length refl
      (omega arith)
