-- ===== src/Flash/Smallq.antt =====
-- Small queries as paged decodes: `_smallq_buffer_token_capacity`, `_ensure_smallq_decode_buffers` and
-- `_update_smallq_decode_metadata` of `FlashAttnV100MetadataBuilder` in
-- fork_patches/flash_attn_v100.py. A graph replays the addresses that it was captured with, so the
-- buffers are allocated once; the state of the builder here is their shape. The metadata are views of
-- the part of the buffers that a call writes: its rows.
pub mod Buffers
pub mod Expand
pub mod Rows
use v100_skinny_unify.Prelude.{
  ℕ, zero, suc, ◌+◌, ◌-◌, ◌*◌, min, max, Bool, true, false, not, Option, none, some, List, [], ◌∷◌,
  ◌++◌, map, ltb, leb, ◌==◌, ◌&&◌, ◌||◌, if◌then◌else◌,
}
use v100_skinny_unify.Prelude.Lists.{replicate, length, take}
use v100_skinny_unify.Prelude.Int.{ℤ, clamp_ℤ}
use v100_skinny_unify.Queries.{query_lens}

-- What the builder reads from the configuration and the environment.
pub record Config : Type 0 where
  pub max_query_len : ℕ
  pub smallq_max_model_len : ℕ
  pub max_model_len : ℕ
  pub max_capture_size : Option ℕ
  pub capture_sizes : List ℕ
  pub max_num_seqs : ℕ
  pub block_size : ℕ

-- token_capacity, req_capacity, block_cols
pub record Shape : Type 0 where
  pub tokens : ℕ
  pub reqs : ℕ
  pub block_cols : ℕ

abbrev pub same_shape : Shape → Shape → Bool
same_shape a b = a.tokens == b.tokens && a.reqs == b.reqs && a.block_cols == b.block_cols

unfoldable pub maximum : List ℕ → ℕ
maximum [] = 0
maximum (n ∷ ns) = max n (maximum ns)

abbrev pub graph_tokens : Option ℕ → List ℕ → ℕ
graph_tokens (some n) sizes = n
graph_tokens none sizes = maximum sizes

unfoldable pub token_capacity : Config → ℕ → ℕ
unfolding maximum
token_capacity c required_tokens =
    let graph = graph_tokens c.max_capture_size c.capture_sizes in
    max (if graph == 0 then required_tokens else graph)
      (max required_tokens (max (c.max_query_len * max c.max_num_seqs 1) 1))

unfoldable pub wanted_shape : Config → ℕ → ℕ → ℕ → Shape
unfolding token_capacity
wanted_shape c required_tokens required_reqs block_cols =
    let tokens = token_capacity c required_tokens in
    record {
      tokens = tokens;
      reqs = max (min c.max_num_seqs tokens) (max required_reqs 1);
      block_cols = block_cols;
    }

-- The shape after the call, and whether the buffers serve it.
unfoldable pub ensure_buffers : Config → ℕ → ℕ → ℕ → Option Shape → Option Shape × Bool
unfolding wanted_shape
ensure_buffers c required_tokens required_reqs block_cols none =
    (some (wanted_shape c required_tokens required_reqs block_cols), true)
ensure_buffers c required_tokens required_reqs block_cols (some old) = (
  some old,
  same_shape old (wanted_shape c required_tokens required_reqs block_cols)
      || leb required_tokens old.tokens
        && leb required_reqs old.reqs
        && block_cols == old.block_cols,
)

-- A request as its tokens see it: seq_len is the larger of its own and its query's, and no block
-- number is negative.
pub record Span : Type 0 where
  pub start : ℕ
  pub query_len : ℕ
  pub seq_len : ℕ
  pub blocks : List ℕ

unfoldable pub spans : List ℕ → List ℕ → List (List ℤ) → List Span
spans (a ∷ b ∷ locs) (seq_len ∷ seq_lens) (row ∷ rows) =
    record { start = a; query_len = b - a; seq_len = max seq_len (b - a); blocks = map clamp_ℤ row }
    ∷ spans (b ∷ locs) seq_lens rows
spans _ _ _ = []

-- repeat_interleave of the spans by their query lengths, the last of which takes the padding.
unfoldable pub repeat_spans : ℕ → List Span → List Span
repeat_spans padding [] = []
repeat_spans padding (s ∷ []) = replicate (s.query_len + padding) s
repeat_spans padding (s ∷ t ∷ rest) = replicate s.query_len s ++ repeat_spans padding (t ∷ rest)

-- A row of the decode: its sequence length and its row of the block table.
abbrev pub Row : Type 0
Row = ℕ × List ℕ

unfoldable pub decode_row : ℕ → ℕ → ℕ → Span → Row
decode_row padding real_tokens t s =
    if not (padding == 0) && leb real_tokens t
    then (0, map (λ _. 0) s.blocks)
    else (s.seq_len - s.query_len + (t - s.start + 1), s.blocks)

unfoldable pub decode_rows : ℕ → ℕ → ℕ → List Span → List Row
unfolding decode_row
decode_rows padding real_tokens t [] = []
decode_rows padding real_tokens t (s ∷ ss) =
    decode_row padding real_tokens t s ∷ decode_rows padding real_tokens (suc t) ss

-- The metadata of a call; `last` is query_start_loc_cpu[-1], and the lists are those of its requests.
pub record Batch : Type 0 where
  pub max_query_len : ℕ
  pub num_query_tokens : ℕ
  pub num_reqs : ℕ
  pub query_start_loc_cpu : List ℕ
  pub last : ℕ
  pub seq_lens_cpu : List ℕ
  pub query_start_loc : List ℕ
  pub seq_lens : List ℕ
  pub block_table : List (List ℤ)
  pub block_cols : ℕ

abbrev pub same_lens : List ℕ → List ℕ → Bool
same_lens [] [] = true
same_lens (a ∷ as') (b ∷ bs) = a == b && same_lens as' bs
same_lens _ _ = false

pub record Metadata : Type 0 where
  pub rows : List Row
  pub query_start_loc : List ℕ
  pub max_seq_len_hint : Option ℕ
  pub workspace_seq_capacity : Option ℕ

pub data Update : Type 0 where
  skipped raised : Update
  updated : Metadata → Update

abbrev pub capped : Option ℕ → ℕ → ℕ → ℕ
capped none hint raw = raw
capped (some cap) hint raw = min raw (max hint cap)

unfoldable pub expand : Config → Batch → Option ℕ → Metadata
unfolding spans repeat_spans decode_rows maximum
expand c b cap =
    let locs = take (b.num_reqs + 1) b.query_start_loc in
    let padding = b.num_query_tokens - b.last in
    let hint = maximum b.seq_lens_cpu in
    let raw = b.block_cols * c.block_size in
    let hinted = ltb 0 hint && ltb 0 raw in
    record {
      rows = decode_rows padding b.last 0 (
          repeat_spans padding
            (spans locs (take b.num_reqs b.seq_lens) (take b.num_reqs b.block_table)));
      query_start_loc = locs;
      max_seq_len_hint = if hinted then some hint else none;
      workspace_seq_capacity = if hinted then some (capped cap hint raw) else none;
    }

-- After the buffers have been looked at.
abbrev pub with_buffers : Config → Batch → Option ℕ → Option Shape × Bool → Option Shape × Update
with_buffers c b cap (shape, false) = (shape, raised)
with_buffers c b cap (shape, true) =
    (shape, if ltb b.num_query_tokens b.last then skipped else updated (expand c b cap))

abbrev pub allocated : Option Shape → Bool
allocated none = false
allocated (some s) = true

-- The early returns before the buffers are looked at.
unfoldable pub declines : Config → Batch → Bool → Option Shape → Bool
declines c b force shape =
    let has_prefix_context = not (same_lens (query_lens b.query_start_loc_cpu) b.seq_lens_cpu) in
    c.max_query_len == 0
    || leb b.max_query_len 1
    || ltb c.max_query_len b.max_query_len
    || ltb 0 c.smallq_max_model_len && ltb c.smallq_max_model_len c.max_model_len
    || not force && not has_prefix_context && not (allocated shape)
    || (b.num_query_tokens == 0 || b.num_reqs == 0)

unfoldable pub update_metadata :
    Config → Batch → Bool → Option ℕ → Option Shape → Option Shape × Update
unfolding ensure_buffers expand declines
update_metadata c b force cap shape =
    if declines c b force shape
    then (shape, skipped)
    else with_buffers c b cap (ensure_buffers c b.num_query_tokens b.num_reqs b.block_cols shape)
