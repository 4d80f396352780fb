-- ===== src/Flash/Builder.antt =====
-- The builds of `FlashAttnV100MetadataBuilder` in fork_patches/flash_attn_v100.py: `build`,
-- `build_for_cudagraph_capture` and `build_for_drafting`, as far as they work on the buffers that the
-- builder keeps, with `_ensure_flash_draft_graph_buffers` and `_stabilize_draft_graph_metadata`. The
-- state is what has been allocated, with the contents of the draft buffers. A build that raises keeps what it had changed; its second
-- component is false.
pub mod Stays
pub mod Held
use v100_skinny_unify.Prelude.{
  ℕ, ◌+◌, min, max, Bool, true, false, not, Option, none, some, List, [], ◌∷◌, map, ltb, leb, ◌==◌,
  ◌&&◌, if◌then◌else◌,
}
use v100_skinny_unify.Prelude.Lists.{length, get_or, take}
use v100_skinny_unify.Prelude.Int.{ℤ}
use v100_skinny_unify.Flash.Smallq.{
  Config, Shape, Batch, Update, skipped, raised, updated, update_metadata,
}
use v100_skinny_unify.Flash.Decode.{Setting, Lengths, Hints, attach_decode}

-- req_capacity, block_cols
pub record DraftShape : Type 0 where
  pub reqs : ℕ
  pub block_cols : ℕ

-- One allocation of the draft buffers, which of them it is, and what they hold: a row of the block
-- table and a length for each request, and the locations.
pub record Draft : Type 0 where
  pub buffer : ℕ
  pub shape : DraftShape
  pub block_table : ℕ → List ℤ
  pub seq_lens : ℕ → ℕ
  pub query_start_loc : ℕ → ℕ

-- `allocations` counts the allocations of draft buffers.
pub record State : Type 0 where
  pub draft : Option Draft
  pub allocations : ℕ
  pub smallq : Option Shape
  pub active : Option ℕ

-- The settings, and what torch.empty leaves in the draft buffers.
pub record Settings : Type 0 where
  pub config : Config
  pub enabled : Bool
  pub partition_size : Setting
  pub empty_rows : ℕ → List ℤ
  pub empty_lens : ℕ → ℕ
  pub empty_locations : ℕ → ℕ

abbrev pub same_draft : DraftShape → DraftShape → Bool
same_draft a b = a.reqs == b.reqs && a.block_cols == b.block_cols

-- (req_capacity, block_cols)
abbrev pub wanted_draft : Settings → ℕ → ℕ → DraftShape
wanted_draft o required_reqs block_cols = record {
  reqs = max o.config.max_num_seqs (max required_reqs 1);
  block_cols = block_cols;
}

abbrev pub new_draft : Settings → DraftShape → ℕ → Draft
new_draft o shape allocations = record {
  buffer = allocations;
  shape = shape;
  block_table = o.empty_rows;
  seq_lens = o.empty_lens;
  query_start_loc = o.empty_locations;
}

-- The draft buffers after the call with the number of allocations, and whether they serve it.
unfoldable pub ensure_draft : Settings → ℕ → ℕ → Option Draft → ℕ → Draft × ℕ × Bool
ensure_draft o required_reqs block_cols none allocations =
    (new_draft o (wanted_draft o required_reqs block_cols) allocations, allocations + 1, true)
ensure_draft o required_reqs block_cols (some old) allocations = (
  old,
  allocations,
  if same_draft old.shape (wanted_draft o required_reqs block_cols)
      then true
      else leb required_reqs old.shape.reqs && block_cols == old.shape.block_cols,
)

-- buffer[:len(xs)].copy_(xs)
unfoldable pub copied {ℓ} : {X : Type ℓ} → List X → (ℕ → X) → ℕ → X
copied xs buffer i = if ltb i (length xs) then get_or xs i (buffer i) else buffer i

unfoldable pub refreshed : Batch → Draft → Draft
unfolding copied
refreshed b d = record d {
  block_table = copied (take b.num_reqs b.block_table) d.block_table;
  seq_lens = copied (take b.num_reqs b.seq_lens) d.seq_lens;
  query_start_loc = copied (take (b.num_reqs + 1) b.query_start_loc) d.query_start_loc;
}

unfoldable pub stabilize : Settings → Batch → State → State × Bool
unfolding ensure_draft refreshed
stabilize o b s =
    if b.num_reqs == 0
    then (s, true)
    else (let (d, n, served) = ensure_draft o b.num_reqs b.block_cols s.draft s.allocations in
        if served
        then (record s { draft = some (refreshed b d); allocations = n }, true)
        else (record s { draft = some d; allocations = n }, false))

abbrev pub returns : Update → Bool
returns raised = false
returns _ = true

unfoldable pub update_smallq : Config → Batch → Bool → Option ℕ → State → State × Bool
unfolding update_metadata
update_smallq c b force cap s =
    let (shape, update) = update_metadata c b force cap s.smallq in
    (record s { smallq = shape }, returns update)

abbrev pub with_active : State → Option (Option ℕ × Option ℕ) → State × Bool
with_active s none = (s, false)
with_active s (some (buffer, active)) = (record s { active = buffer }, true)

unfoldable pub and_then : State × Bool → (State → State × Bool) → State × Bool
and_then (s, true) next = next s
and_then (s, false) next = (s, false)

-- The metadata of a call: `tree` is ddtree_tree_verify.
pub record Call : Type 0 where
  pub batch : Batch
  pub lengths : Lengths
  pub tree : Bool

unfoldable pub attach : Settings → Call → Bool → State → State × Bool
unfolding attach_decode
attach o a static s =
    with_active s
      (attach_decode o.config.block_size a.lengths static o.enabled o.partition_size s.active).1

abbrev pub nonzero : ℕ → Option ℕ
nonzero n = if n == 0 then none else some n

-- attn_metadata.seq_lens.fill_(max_query_len)
abbrev pub filled : Batch → Batch
filled b = record b { seq_lens = map (λ _. b.max_query_len) b.seq_lens }

-- The rows that a capture binds to.
unfoldable pub bind_rows : Settings → Call → State → State × Bool
unfolding update_smallq stabilize
bind_rows o a s =
    if ltb 1 a.batch.max_query_len
    then update_smallq o.config (filled a.batch) true (nonzero a.lengths.max_seq_len) s
    else stabilize o a.batch s

unfoldable pub build_for_cudagraph_capture : Settings → Call → State → State × Bool
unfolding bind_rows attach and_then
build_for_cudagraph_capture o a s = and_then (bind_rows o a s) (attach o a true)

abbrev pub has_draft : Option Draft → Bool
has_draft none = false
has_draft (some d) = true

-- A step refreshes the buffers that a capture bound to, and the small queries of a batch that is no
-- tree.
unfoldable pub refresh_draft : Settings → Call → State → State × Bool
unfolding stabilize
refresh_draft o a s =
    if a.batch.max_query_len == 1 && has_draft s.draft then stabilize o a.batch s else (s, true)

unfoldable pub refresh_smallq : Settings → Call → State → State × Bool
unfolding update_smallq
refresh_smallq o a s = if a.tree then (s, true) else update_smallq o.config a.batch false none s

unfoldable pub build : Settings → Call → State → State × Bool
unfolding refresh_draft refresh_smallq attach and_then
build o a s =
    and_then (refresh_draft o a s) λ s'. and_then (refresh_smallq o a s') (attach o a false)

unfoldable pub build_for_drafting : Settings → Call → State → State × Bool
unfolding update_smallq stabilize attach and_then
build_for_drafting o a s =
    and_then (stabilize o a.batch s)
      λ s'. and_then (update_smallq o.config a.batch false none s') (attach o a false)

pub data Kind : Type 0 where
  capture runtime drafting : Kind

unfoldable pub run : Settings → Kind × Call → State → State × Bool
unfolding build build_for_cudagraph_capture build_for_drafting
run o (capture, a) s = build_for_cudagraph_capture o a s
run o (runtime, a) s = build o a s
run o (drafting, a) s = build_for_drafting o a s

unfoldable pub after_builds : Settings → List (Kind × Call) → State → State
unfolding run
after_builds o [] s = s
after_builds o (call ∷ calls) s = after_builds o calls (run o call s).0
