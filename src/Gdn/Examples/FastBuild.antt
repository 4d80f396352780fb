-- ===== src/Gdn/Examples/FastBuild.antt =====
-- A request that is built fast: three slots from the block of its ninth token on, and two drafts.
use v100_skinny_unify.Prelude.{
  ℕ, zero, suc, ◌+◌, ◌*◌, ◌≡◌, refl, Bool, true, false, none, some, List, [], ◌∷◌, ◌==◌, arith,
}
use v100_skinny_unify.Prelude.Options.{◌>>=◌}
use v100_skinny_unify.Prelude.Int.{pos}
use v100_skinny_unify.Gdn.Contract.{ensure}
use v100_skinny_unify.Gdn.Pure.{SpecPart, spec_part}
use v100_skinny_unify.Gdn.Fast.{
  Builder, Request, fast_update, spec_update, fill, fill_unless, write_common,
}
use v100_skinny_unify.Gdn.Fast.Kernel.{
  IsLaid, state_block, kernel_states, kernel_common, kernel-Writes,
}
use v100_skinny_unify.Prelude.Lists.{replicate}
use v100_skinny_unify.Gdn.Fast.Reach.{Reaches}
use v100_skinny_unify.Gdn.Eligible.{
  FastInputs, first_row_from, fast_states, write_request, pure_request, fast_request,
}
use v100_skinny_unify.Gdn.Eligible.Slots.{IsOne, step_of}
use v100_skinny_unify.Gdn.Eligible.Agrees.{SameRows, requests_of, fast-SameRows}

abbrev padded : ℕ → Bool
padded a = a == 0

abbrev inputs : FastInputs ℕ
inputs = record {
  for_cudagraph_capture = false;
  use_full_cuda_graph = true;
  use_spec_decode = true;
  spec_core_op = true;
  parent_rows = some 1;
  num_tree_tokens = some (2 ∷ []);
  num_accepted_tokens = some (2 ∷ []);
  num_decode_draft_tokens = some (pos 2 ∷ []);
  selectors = none;
  current = none;
  query_start_loc = 0 ∷ 3 ∷ [];
  block_table = record { width = 8; rows = (10 ∷ 11 ∷ 12 ∷ 13 ∷ 14 ∷ 15 ∷ 16 ∷ 17 ∷ []) ∷ [] };
  seq_lens = 9 ∷ [];
  seq_lens_cpu = some (9 ∷ []);
  block_size = 4;
  num_spec = 2;
  is_mamba_cache_all = true;
  num_actual_tokens = 4;
  decode_cudagraph_max_bs = 8;
  state_columns = 3;
  spec_token_capacity = 16;
  shared_token_capacity = none;
  epoch = none;
}

abbrev request : Request ℕ
request = record {
  batch_size = 4;
  query_len = 3;
  width = 3;
  epoch = none;
  states = 12 ∷ 13 ∷ 14 ∷ [];
  accepted = 2;
  selector = 2;
}

requested : fast_request inputs ≡ some request
unfolding fast_request pure_request write_request fast_states first_row_from ensure ◌>>=◌
requested = refl

inputs-IsOne : IsOne inputs (2 ∷ [])
inputs-IsOne = record {
  one_row = refl;
  one_len = refl;
  one_current = λ t known. absurd (ground (arith, known));
  one_accepted = refl;
  one_selector = λ l known. absurd (ground (arith, known));
}

abbrev fresh : Builder ℕ
fresh = record {
  states = λ i. 7 ∷ [];
  tail_key = none;
  common = record {
    masks = λ i. true;
    starts = λ i. i;
    accepted = λ i. 5;
    selectors = λ i. 6;
    initialized_key = none;
    updated_epoch = none;
  };
}

fast-SameRows_example :
    (p : SpecPart ℕ) × (spec_part padded 0 (step_of inputs (2 ∷ []) false true false) ≡ some p)
    × SameRows 4
        (fast_update 0 true request fresh)
        (spec_update 0 true (requests_of inputs p) fresh)
fast-SameRows_example =
    fast-SameRows 0 true padded inputs request false true false (2 ∷ []) fresh requested refl
      inputs-IsOne (Reaches.start refl refl) refl

-- The storage of four rows of three slots, and the rows.
abbrev storage : ℕ → ℕ
storage i = 100 + i

abbrev rows : ℕ → List ℕ
rows i = (100 + 3 * i) ∷ (101 + 3 * i) ∷ (102 + 3 * i) ∷ []

rows-IsLaid : IsLaid 0 4 3 rows storage
rows-IsLaid i zero lt within = omega arith
rows-IsLaid i (suc zero) lt within = omega arith
rows-IsLaid i (suc (suc zero)) lt within = omega arith
rows-IsLaid i (suc (suc (suc j))) lt within = absurd (omega arith)

kernel-Writes_example :
    IsLaid 0 4 3
      (fill_unless false 1 4 (replicate 3 0) (fill 0 1 request.states rows))
      (kernel_states 0 false (state_block 4 3) request storage)
    × (kernel_common true false (state_block 4 3) request fresh.common
        ≡ write_common false request fresh.common)
kernel-Writes_example =
    kernel-Writes 0 false true false request rows storage fresh.common (omega arith) rows-IsLaid
