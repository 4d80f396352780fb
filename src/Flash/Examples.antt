-- ===== src/Flash/Examples.antt =====
-- The theorems on the attention for V100 at concrete inputs: a request with a prefix of 5 tokens and
-- a tree of 3 drafts, a sequence of 5 tokens in pages of 4, and a batch of two small queries with one
-- row of padding.
mod Builds
mod Serving
use v100_skinny_unify.Prelude.{
  ℕ, ◌+◌, ◌<◌, ◌≤◌, ◌≡◌, refl, sym, ap, ◌∙◌, ◌↔◌, true, false, none, some, List, [], ◌∷◌, zero, suc,
  arith,
}
use mathlib.Core.Path.{subst}
use v100_skinny_unify.Prelude.Options.{some_injective, ◌>>=◌}
use v100_skinny_unify.Prelude.Lists.{get_elem?, length}
use v100_skinny_unify.Prelude.Int.{ℤ, pos, negsuc, clamp_ℤ}
use v100_skinny_unify.Queries.{query_lens}
use v100_skinny_unify.Flash.Tree.{
  Query, visibility_mask, show_until, show, walk, branch_row, tree_row,
}
use v100_skinny_unify.Flash.Tree.Ancestors.{IsTree}
use v100_skinny_unify.Flash.Tree.Visible.{IsNear, Attends, mask-Attends, mask-IsCausal}
use v100_skinny_unify.Flash.Tree.Parents.{
  verdict, causal_marks, chain_from, with_causal, any, parent_ids_for_query,
}
use v100_skinny_unify.Flash.Tree.Parents.Laws.{Suits, parent_ids-Suits}
use v100_skinny_unify.Flash.Pages.{
  cdiv_int, extract_sequence, extract_contiguous_kv, consecutive, start_of, Key, lookup,
  contiguous_start_block, contiguous_view,
}
use v100_skinny_unify.Flash.Pages.Extract.{total_tokens, AreCopied, extract-AreCopied}
use v100_skinny_unify.Flash.Pages.Starts.{view-extract}
use v100_skinny_unify.Flash.Smallq.{
  Config, Batch, Metadata, updated, Span, spans, repeat_spans, decode_row, decode_rows, maximum,
  expand, declines, ensure_buffers, update_metadata,
}
use v100_skinny_unify.Flash.Smallq.Buffers.{
  IsServed, update-IsServed, after_updates, after_updates-stays,
}
use v100_skinny_unify.Flash.Smallq.Rows.{HasLocations, requests, update-row}

-- Slot 1 is below the root, slots 2 and 3 are below slot 1.
abbrev parents : List ℤ
parents = pos 0 ∷ pos 0 ∷ pos 1 ∷ pos 1 ∷ []

abbrev query : Query
query = record {
  q_len = 4;
  seq_len = 9;
  prefix_len = 5;
  tree_len = 3;
  parent_row = some parents;
  left = negsuc 0;
  right = pos 0;
}

parents-IsTree : IsTree parents
parents-IsTree zero p lt e = absurd (omega arith)
parents-IsTree (suc zero) p lt (z, e, q) =
    omega (arith, sym q ∙ ap clamp_ℤ (sym (some_injective e)))
parents-IsTree (suc (suc zero)) p lt (z, e, q) =
    omega (arith, sym q ∙ ap clamp_ℤ (sym (some_injective e)))
parents-IsTree (suc (suc (suc zero))) p lt (z, e, q) =
    omega (arith, sym q ∙ ap clamp_ℤ (sym (some_injective e)))
parents-IsTree (suc (suc (suc (suc a)))) p lt (z, e, q) = cc

mask-Attends_example :
    (visibility_mask query 3 7 ≡ true) ↔ (IsNear query 3 7 × Attends query parents 3 7)
mask-Attends_example =
    mask-Attends query parents 3 7 refl parents-IsTree (omega arith) (omega arith) (omega arith)

-- The second of two requests has no tree.
abbrev rows : List (List ℤ)
rows = parents ∷ (pos 9 ∷ pos 9 ∷ pos 9 ∷ pos 9 ∷ []) ∷ []

abbrev cache : ℕ → ℕ
cache i = i + 100

abbrev none_yet : ℕ → ℕ
none_yet i = 0

abbrev block_rows : ℕ → List ℤ
block_rows address = pos 2 ∷ pos 3 ∷ []

abbrev key : Key
key = record { seq_idx = 0; seq_len = 5; block_size = 4; row_ptr = 7; cache_ptr = 1 }

start_found : (contiguous_start_block 8 (block_rows 7) key []).1 ≡ some (2, 2)
unfolding contiguous_start_block cdiv_int lookup start_of consecutive
start_found = refl

view-extract_example :
    (2 + 2 ≤ 8)
    × ((i : ℕ)
        → i < 5
        → contiguous_view 4 cache 2 i
          ≡ (extract_sequence 8 4 cache (pos 2 ∷ pos 3 ∷ []) 5 (0, none_yet)).1 i)
view-extract_example = view-extract block_rows 8 cache none_yet key [] 2 2 tt start_found

abbrev config : Config
config = record {
  max_query_len = 4;
  smallq_max_model_len = 0;
  max_model_len = 100;
  max_capture_size = none;
  capture_sizes = [];
  max_num_seqs = 2;
  block_size = 16;
}

abbrev batch : Batch
batch = record {
  max_query_len = 3;
  num_query_tokens = 5;
  num_reqs = 2;
  query_start_loc_cpu = 0 ∷ 1 ∷ 4 ∷ [];
  last = 4;
  seq_lens_cpu = 10 ∷ 20 ∷ [];
  query_start_loc = 0 ∷ 1 ∷ 4 ∷ [];
  seq_lens = 10 ∷ 20 ∷ [];
  block_table = (pos 3 ∷ negsuc 0 ∷ []) ∷ (pos 5 ∷ pos 6 ∷ []) ∷ [];
  block_cols = 2;
}

abbrev metadata : Metadata
metadata = record {
  rows =
      (10, 3 ∷ 0 ∷ [])
      ∷ (18, 5 ∷ 6 ∷ [])
      ∷ (19, 5 ∷ 6 ∷ [])
      ∷ (20, 5 ∷ 6 ∷ [])
      ∷ (0, 0 ∷ 0 ∷ [])
      ∷ [];
  query_start_loc = 0 ∷ 1 ∷ 4 ∷ [];
  max_seq_len_hint = some 20;
  workspace_seq_capacity = some 32;
}

written : (update_metadata config batch false none none).1 ≡ updated metadata
unfolding update_metadata declines query_lens ensure_buffers expand spans repeat_spans decode_rows
    decode_row maximum
written = refl

batch-HasLocations : HasLocations batch
batch-HasLocations = record {
  rest = 1 ∷ 4 ∷ [];
  locs = refl;
  rising = (omega arith, (omega arith, tt));
  ends = refl;
}

abbrev second : Span
second = record { start = 1; query_len = 3; seq_len = 20; blocks = 5 ∷ 6 ∷ [] }

is_second : get_elem? (requests batch) 1 ≡ some second
unfolding spans
is_second = refl

update-row_example : (get_elem? metadata.rows 3 ≡ some (20, 5 ∷ 6 ∷ [])) × (20 ≤ 20)
update-row_example =
    update-row config batch false none none metadata 1 2 second written batch-HasLocations is_second
      (omega arith)
