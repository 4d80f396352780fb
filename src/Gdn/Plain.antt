-- ===== src/Gdn/Plain.antt =====
-- A batch without speculative requests in `GDNAttentionMetadataBuilder.build` of
-- fork_patches/gdn_attn.py: the slots of the states, and the rows of a captured graph that decodes it.
-- `split_decodes_and_prefills` of the vLLM package is an argument, on the lengths of the queries; its
-- counts of requests are read. An exception is `none`.
pub mod Padding
pub mod Graph
use v100_skinny_unify.Prelude.{
  ℕ, zero, suc, ◌+◌, Bool, true, false, Option, none, some, List, [], ◌∷◌, map, leb, ltb, ◌==◌,
  ◌&&◌, ◌||◌, if◌then◌else◌,
}
use v100_skinny_unify.Prelude.Options.{◌>>=◌}
use v100_skinny_unify.Prelude.Lists.{length, get_elem?}
use v100_skinny_unify.Queries.{query_lens, last_or}
use v100_skinny_unify.Gdn.Contract.{
  Table, traverse, zip_rows, gather_gdn_state_block_ids, select_gdn_state_block_ids, ensure,
}
use v100_skinny_unify.Gdn.Fast.{fill, copy}

pub record Plain (A : Type 0) : Type 0 where
  pub block_table : Table A
  pub seq_lens : List ℕ
  pub block_size : ℕ
  pub num_spec : ℕ
  pub num_accepted_tokens : Option (List ℕ)
  pub is_mamba_cache_all : Bool
  pub legacy : Bool
  pub for_capture : Bool
  pub use_full_cuda_graph : Bool
  pub decode_cudagraph_max_bs : ℕ
  pub batch_size : ℕ
  pub first_start : ℕ
  pub ends : List ℕ

unfoldable pub any_zero : List ℕ → Bool
any_zero [] = false
any_zero (n ∷ ns) = n == 0 || any_zero ns

-- The rows of the graph: slots and locations.
pub record GraphRows (A : Type 0) : Type 0 where
  pub states : ℕ → A
  pub starts : ℕ → ℕ

pub data Rows (A : Type 0) : Type 0 where
  -- not for a full graph
  plain : List A → Rows A
  graph : (num_decodes : ℕ) → GraphRows A → Rows A

module _ {A : Type 0} (pad : A) where
  -- squeeze(1) of the one gathered column
  unfoldable pub selected_states : Plain A → Option (List A)
  unfolding ◌>>=◌ traverse gather_gdn_state_block_ids select_gdn_state_block_ids
  selected_states i =
      if i.is_mamba_cache_all
      then (gather_gdn_state_block_ids i.block_table i.seq_lens i.block_size 1
          >>= traverse (λ row. get_elem? row 0))
      else select_gdn_state_block_ids i.legacy i.block_table i.num_accepted_tokens i.num_spec

  abbrev pub lane : ℕ → A → Option A
  lane n a = some (if ltb 0 n then a else pad)

  -- Requests without tokens, and every request of a capture, take the padding slot.
  unfoldable pub masked_states : Plain A → List ℕ → ℕ → List A → Option (List A)
  unfolding zip_rows any_zero ◌>>=◌
  masked_states i lens num_prefills states = do
    lanes ← (if num_prefills == 0 && any_zero lens then zip_rows lane lens states else some states)
    some (if i.for_capture && num_prefills == 0 then map (λ _. pad) lanes else lanes)

  unfoldable pub graph_rows : Plain A → ℕ → List A → (ℕ → A) → (ℕ → ℕ) → Option (Rows A)
  unfolding ensure fill copy
  graph_rows i num_decodes states state_buffer start_buffer =
      ensure (length states == num_decodes && length i.ends == num_decodes) (
        some (
          graph num_decodes (record {
            states = fill num_decodes i.batch_size pad (copy states state_buffer);
            starts =
                fill (num_decodes + 1) (i.batch_size + 1) (last_or i.first_start i.ends)
                  (copy (i.first_start ∷ i.ends) start_buffer);
          })))

  unfoldable pub build_plain : (List ℕ → ℕ × ℕ) → Plain A → (ℕ → A) → (ℕ → ℕ) → Option (Rows A)
  unfolding selected_states masked_states graph_rows query_lens ◌>>=◌
  build_plain split i state_buffer start_buffer = do
    let lens = query_lens (i.first_start ∷ i.ends)
    let counts = split lens
    selected ← selected_states i
    states ← masked_states i lens counts.1 selected
    if i.use_full_cuda_graph && counts.1 == 0 && leb counts.0 i.decode_cudagraph_max_bs
        then graph_rows i counts.0 states state_buffer start_buffer
        else some (plain states)
