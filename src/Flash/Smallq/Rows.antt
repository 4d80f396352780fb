-- ===== src/Flash/Smallq/Rows.antt =====
-- What each token of a small query decodes.
use v100_skinny_unify.Prelude.{
  ℕ, ◌+◌, ◌-◌, ◌<◌, ◌≤◌, ◌≡◌, sym, ap, ◌∙◌, Bool, Option, some, List, ◌∷◌, not, leb, ◌==◌, ◌&&◌,
  if_false, arith,
}
use mathlib.Core.Path.{subst}
use v100_skinny_unify.Prelude.Lists.{get_elem?, take}
use v100_skinny_unify.Queries.{IsMonotone, last_or}
use v100_skinny_unify.Flash.Smallq.{
  Config, Shape, Batch, Metadata, updated, Span, spans, decode_row, expand, update_metadata,
}
use v100_skinny_unify.Flash.Smallq.Buffers.{update-IsServed}
use v100_skinny_unify.Flash.Smallq.Expand.{
  IsLaid, spans-IsLaid, spans-end, laid-query, get-repeat_spans, get-decode_rows,
}

-- The requests of a batch.
abbrev pub requests : Batch → List Span
requests b =
    spans (take (b.num_reqs + 1) b.query_start_loc) (take b.num_reqs b.seq_lens)
      (take b.num_reqs b.block_table)

-- The locations of the queries rise from 0 to the number of real tokens.
pub record HasLocations (b : Batch) : Type 0 where
  pub rest : List ℕ
  pub locs : take (b.num_reqs + 1) b.query_start_loc ≡ 0 ∷ rest
  pub rising : IsMonotone (0 ∷ rest)
  pub ends : last_or 0 rest ≡ b.last

real_row :
    (padding real t : ℕ) (s : Span)
    → t < real
    → decode_row padding real t s ≡ (s.seq_len - s.query_len + (t - s.start + 1), s.blocks)
unfolding decode_row
real_row padding real t s lt = if_false (not (padding == 0) && leb real t) _ _ (ground arith)

requests-of :
    (b : Batch) (h : HasLocations b)
    → requests b ≡ spans (0 ∷ h.rest) (take b.num_reqs b.seq_lens) (take b.num_reqs b.block_table)
requests-of b h =
    ap (λ l. spans l (take b.num_reqs b.seq_lens) (take b.num_reqs b.block_table)) h.locs

expand-row :
    (c : Config) (b : Batch) (cap : Option ℕ) (k j : ℕ) (s : Span)
    → HasLocations b
    → get_elem? (requests b) k ≡ some s
    → j < s.query_len
    → get_elem? (expand c b cap).rows (s.start + j)
      ≡ some (s.seq_len - s.query_len + (j + 1), s.blocks)
unfolding expand
expand-row c b cap k j s h e lt =
    let padding = b.num_query_tokens - b.last in
    let at : get_elem?
          (spans (0 ∷ h.rest) (take b.num_reqs b.seq_lens) (take b.num_reqs b.block_table)) k
        ≡ some s =
      ap (λ l. get_elem? l k) (sym (requests-of b h)) ∙ e in
    let laid = subst (IsLaid 0) (sym (requests-of b h)) (
      spans-IsLaid 0 h.rest (take b.num_reqs b.seq_lens) (take b.num_reqs b.block_table)
        h.rising) in
    let end =
      spans-end 0 k h.rest (take b.num_reqs b.seq_lens) (take b.num_reqs b.block_table) s h.rising
        at in
    let placed =
      get-repeat_spans padding 0 k j (s.start + j) (requests b) s laid e lt (omega arith) in
    get-decode_rows padding b.last 0 (s.start + j) _ s placed
    ∙ ap some (
        real_row padding b.last (0 + (s.start + j)) s (omega (arith, h.ends))
        ∙ ap (λ n. (s.seq_len - s.query_len + n, s.blocks)) (omega arith))

-- Where the metadata of small queries are written, token j of a request decodes against the first
-- seq_len - query_len + j + 1 tokens of the sequence, by the request's own blocks: what came before
-- the query and the query up to that token, so at least one token and no more than the sequence
-- has. The locations of the batch rise from 0 to its number of real tokens.
pub update-row :
    (c : Config) (b : Batch) (force : Bool) (cap : Option ℕ) (before : Option Shape) (m : Metadata)
    (k j : ℕ) (s : Span)
    → (update_metadata c b force cap before).1 ≡ updated m
    → HasLocations b
    → get_elem? (requests b) k ≡ some s
    → j < s.query_len
    → (get_elem? m.rows (s.start + j) ≡ some (s.seq_len - s.query_len + (j + 1), s.blocks))
      × (s.seq_len - s.query_len + (j + 1) ≤ s.seq_len)
update-row c b force cap before m k j s e h at lt =
    let (_, _, same) = update-IsServed c b force cap before m e in
    let laid = subst (IsLaid 0) (sym (requests-of b h)) (
      spans-IsLaid 0 h.rest (take b.num_reqs b.seq_lens) (take b.num_reqs b.block_table)
        h.rising) in
    (
      ap (λ x. get_elem? x.rows (s.start + j)) same ∙ expand-row c b cap k j s h at lt,
      omega (arith, laid-query 0 k (requests b) s laid at),
    )
