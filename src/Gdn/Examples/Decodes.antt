-- ===== src/Gdn/Examples/Decodes.antt =====
-- The theorem on graphs that decode at a concrete input: three requests, the second of which has no
-- tokens, in a graph of four rows.
use v100_skinny_unify.Prelude.{ℕ, ◌+◌, ◌≤◌, ◌≡◌, refl, true, false, none, some, [], ◌∷◌, arith}
use v100_skinny_unify.Prelude.Options.{◌>>=◌}
use v100_skinny_unify.Prelude.Lists.{length}
use v100_skinny_unify.Queries.{query_lens}
use v100_skinny_unify.Gdn.Contract.{
  traverse, zip_rows, first_column, select_gdn_state_block_ids, ensure,
}
use v100_skinny_unify.Gdn.Fast.{fill, copy}
use v100_skinny_unify.Gdn.Plain.{
  Plain, any_zero, selected_states, masked_states, GraphRows, graph, graph_rows, build_plain,
}
use v100_skinny_unify.Gdn.Plain.Padding.{IsIdle}
use v100_skinny_unify.Gdn.Plain.Graph.{build_plain-IsIdle}

abbrev step : Plain ℕ
step = record {
  block_table = record { width = 2; rows = (11 ∷ 12 ∷ []) ∷ (21 ∷ 22 ∷ []) ∷ (31 ∷ 32 ∷ []) ∷ [] };
  seq_lens = 5 ∷ 0 ∷ 9 ∷ [];
  block_size = 16;
  num_spec = 0;
  num_accepted_tokens = none;
  is_mamba_cache_all = false;
  legacy = false;
  for_capture = false;
  use_full_cuda_graph = true;
  decode_cudagraph_max_bs = 4;
  batch_size = 4;
  first_start = 0;
  ends = 1 ∷ 1 ∷ 2 ∷ [];
}

abbrev stale : ℕ → ℕ
stale i = 99

abbrev rows : GraphRows ℕ
rows = record {
  states = fill 3 4 0 (copy (11 ∷ 0 ∷ 31 ∷ []) stale);
  starts = fill 4 5 2 (copy (0 ∷ 1 ∷ 1 ∷ 2 ∷ []) stale);
}

built : build_plain 0 (λ lens. (length lens, 0)) step stale stale ≡ some (graph 3 rows)
unfolding build_plain selected_states select_gdn_state_block_ids first_column traverse masked_states
    any_zero zip_rows graph_rows ensure query_lens ◌>>=◌
built = refl

build_plain-IsIdle_example :
    (IsIdle 0 step 3 1 → rows.states 1 ≡ 0) × (3 ≤ 1 → rows.starts (1 + 1) ≡ 2)
build_plain-IsIdle_example =
    build_plain-IsIdle 0 (λ lens. (length lens, 0)) step stale stale 3 1 rows built (omega arith)
