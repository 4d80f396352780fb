-- ===== src/Gdn/Eligible.antt =====
-- The conditions of `_build_fast_pure_ddtree_full_graph` of fork_patches/gdn_attn.py: which batches
-- are built fast, and the request that is then written. A miss, after which `build` goes on as
-- usual, is `none`. `block_table` is what `mamba_get_block_table_tensor` returns. The tests on the
-- number of dimensions hold by the types here, and the tables have a row for the request.
pub mod Slots
pub mod Built
pub mod Agrees
use v100_skinny_unify.Prelude.{
  ℕ, zero, suc, ◌+◌, ◌-◌, ◌/◌, min, Bool, true, false, not, Option, none, some, List, [], ◌∷◌, ltb,
  leb, ◌==◌, ◌&&◌, ◌||◌, if◌then◌else◌,
}
use v100_skinny_unify.Prelude.Lists.{length, get_or, get_elem?, take, drop}
use v100_skinny_unify.Prelude.Options.{◌>>=◌}
use v100_skinny_unify.Prelude.Int.{ℤ, pos, negsuc}
use v100_skinny_unify.Gdn.Contract.{Table, gather_row, ensure, default}
use v100_skinny_unify.Gdn.Fast.{Request}

-- The arguments and the attributes that are read. `spec_token_capacity` is the size of the builder's
-- token indices, `shared_token_capacity` that of the shared ones, if there are any.
pub record FastInputs (A : Type 0) : Type 0 where
  pub for_cudagraph_capture : Bool
  pub use_full_cuda_graph : Bool
  pub use_spec_decode : Bool
  pub spec_core_op : Bool
  pub parent_rows : Option ℕ
  pub num_tree_tokens : Option (List ℕ)
  pub num_accepted_tokens : Option (List ℕ)
  pub num_decode_draft_tokens : Option (List ℤ)
  pub selectors : Option (List ℕ)
  pub current : Option (Table A)
  pub query_start_loc : List ℕ
  pub block_table : Table A
  pub seq_lens : List ℕ
  pub seq_lens_cpu : Option (List ℕ)
  pub block_size : ℕ
  pub num_spec : ℕ
  pub is_mamba_cache_all : Bool
  pub num_actual_tokens : ℕ
  pub decode_cudagraph_max_bs : ℕ
  pub state_columns : ℕ
  pub spec_token_capacity : ℕ
  pub shared_token_capacity : Option ℕ
  pub epoch : Option ℕ

abbrev pub is_positive : ℤ → Bool
is_positive (pos n) = ltb 0 n
is_positive (negsuc n) = false

module _ {A : Type 0} where
  -- t[:1, start:start + width]
  unfoldable pub first_row_from : ℕ → ℕ → Table A → Option (List A)
  unfolding ◌>>=◌
  first_row_from start width t = do row ← get_elem? t.rows 0; some (take width (drop start row))

  -- fast_path_state_block_ids
  abbrev pub by_table : FastInputs A → ℕ → Bool → Option (List ℕ) → Option (List A)
  by_table i width true (some lens) =
      let start = (get_or lens 0 0 - 1) / i.block_size in
      if ltb i.block_table.width (start + width)
      then none
      else first_row_from start width i.block_table
  by_table i width true none = do
    row ← get_elem? i.block_table.rows 0
    seq_len ← get_elem? i.seq_lens 0
    gather_row i.block_size width i.block_table.width seq_len row
  by_table i width false lens =
      if leb width i.block_table.width then first_row_from 0 width i.block_table else none

  unfoldable pub fast_states : FastInputs A → ℕ → Option (Table A) → Option (List A)
  unfolding first_row_from ◌>>=◌
  fast_states i width (some ids) = first_row_from 0 width ids
  fast_states i width none = by_table i width i.is_mamba_cache_all i.seq_lens_cpu

  -- At least one row.
  abbrev pub has_row : Option (Table A) → Bool
  has_row none = true
  has_row (some t) = ltb 0 (length t.rows)

  abbrev pub query_len_of : FastInputs A → ℕ
  query_len_of i = get_or i.query_start_loc 1 0 - get_or i.query_start_loc 0 0

  -- One request with a draft tree, and nothing else.
  abbrev pub is_pure : FastInputs A → List ℕ → List ℤ → Bool
  is_pure i tree drafts =
      get_or i.query_start_loc 0 0 == 0
      && ltb 1 (query_len_of i)
      && get_or tree 0 0 + 1 == query_len_of i
      && is_positive (get_or drafts 0 (pos 0))

  -- The buffers hold what the request writes.
  abbrev pub fits : FastInputs A → List ℕ → Bool
  fits i accepted =
      let width = i.num_spec + 1 in
      let spec_token_size = min width (query_len_of i) in
      leb 1 i.num_actual_tokens
      && leb i.num_actual_tokens i.decode_cudagraph_max_bs
      && leb (query_len_of i) i.decode_cudagraph_max_bs
      && leb width i.state_columns
      && leb spec_token_size i.spec_token_capacity
      && leb spec_token_size (default i.spec_token_capacity i.shared_token_capacity)
      && ltb 0 (length (default accepted i.selectors))

  abbrev pub request_of : FastInputs A → List ℕ → List A → Request A
  request_of i accepted states = record {
    batch_size = i.num_actual_tokens;
    query_len = query_len_of i;
    width = i.num_spec + 1;
    epoch = i.epoch;
    states = states;
    accepted = get_or accepted 0 0;
    selector = get_or (default accepted i.selectors) 0 0;
  }

  unfoldable pub write_request : FastInputs A → List ℕ → List A → Option (Request A)
  unfolding ensure
  write_request i accepted states = ensure (fits i accepted) (some (request_of i accepted states))

  unfoldable pub pure_request : FastInputs A → ℕ → List ℕ → List ℕ → List ℤ → Option (Request A)
  unfolding ensure fast_states write_request ◌>>=◌
  pure_request i parent_rows tree accepted drafts = ensure (length i.query_start_loc - 1 == 1) (
      ensure
        (ltb 0 parent_rows
          && ltb 0 (length tree)
          && ltb 0 (length accepted)
          && ltb 0 (length drafts)
          && has_row i.current)
        (ensure (is_pure i tree drafts)
          (fast_states i (i.num_spec + 1) i.current >>= write_request i accepted)))

  -- The arguments that are required.
  abbrev pub with_required :
      FastInputs A
      → Option ℕ
      → Option (List ℕ)
      → Option (List ℕ)
      → Option (List ℤ)
      → Option (Request A)
  with_required i (some parent_rows) (some tree) (some accepted) (some drafts) =
      pure_request i parent_rows tree accepted drafts
  with_required i _ _ _ _ = none

  unfoldable pub fast_request : FastInputs A → Option (Request A)
  unfolding ensure pure_request
  fast_request i =
      ensure
        (not i.for_cudagraph_capture
          && i.use_full_cuda_graph
          && i.use_spec_decode
          && i.spec_core_op)
        (with_required i i.parent_rows i.num_tree_tokens i.num_accepted_tokens
          i.num_decode_draft_tokens)
