-- ===== src/Flash/Smallq/Buffers.antt =====
-- The buffers that a graph was captured with stay, and hold what a call writes.
use v100_skinny_unify.Prelude.{
  ℕ, ◌≤◌, ◌≡◌, refl, sym, ap, ◌∙◌, Bool, true, false, Option, none, some, List, [], ◌∷◌, arith,
  if◌then◌else◌,
}
use mathlib.Core.Path.{subst}
use v100_skinny_unify.Flash.Smallq.{
  Config, Shape, token_capacity, wanted_shape, ensure_buffers, Batch, Metadata, Update, skipped,
  updated, expand, with_buffers, update_metadata, declines,
}

-- The rows that a call writes fit the buffers.
pub record Fits (tokens reqs block_cols : ℕ) (s : Shape) : Type 0 where
  pub tokens_fit : tokens ≤ s.tokens
  pub reqs_fit : reqs ≤ s.reqs
  pub same_cols : block_cols ≡ s.block_cols

wanted-Fits :
    (c : Config) (tokens reqs block_cols : ℕ)
    → Fits tokens reqs block_cols (wanted_shape c tokens reqs block_cols)
unfolding wanted_shape token_capacity
wanted-Fits c tokens reqs block_cols = omega arith

-- Buffers that are there stay, new ones are allocated, and where a call is served they hold it.
pub record IsServed (tokens reqs block_cols : ℕ) (before : Option Shape) (after : Option Shape)
    : Type 0 where
  pub shape : Shape
  pub is_shape : after ≡ some shape
  pub fits : Fits tokens reqs block_cols shape
  pub stays : (old : Shape) → before ≡ some old → shape ≡ old

ensure-IsServed :
    (c : Config) (tokens reqs block_cols : ℕ) (before : Option Shape)
    → (ensure_buffers c tokens reqs block_cols before).1 ≡ true
    → IsServed tokens reqs block_cols before (ensure_buffers c tokens reqs block_cols before).0
unfolding ensure_buffers
ensure-IsServed c tokens reqs block_cols none h = record {
  shape = wanted_shape c tokens reqs block_cols;
  is_shape = refl;
  fits = wanted-Fits c tokens reqs block_cols;
  stays = λ old e. cc;
}
ensure-IsServed c tokens reqs block_cols (some old) h = record {
  shape = old;
  is_shape = refl;
  fits = ground (arith, wanted-Fits c tokens reqs block_cols);
  stays = λ other e. cc;
}

ensure-stays :
    (c : Config) (tokens reqs block_cols : ℕ) (old : Shape)
    → (ensure_buffers c tokens reqs block_cols (some old)).0 ≡ some old
unfolding ensure_buffers
ensure-stays c tokens reqs block_cols old = refl

with_buffers-shape :
    (c : Config) (b : Batch) (cap : Option ℕ) (r : Option Shape × Bool)
    → (with_buffers c b cap r).0 ≡ r.0
with_buffers-shape c b cap (shape, false) = refl
with_buffers-shape c b cap (shape, true) = refl

with_buffers-updated :
    (c : Config) (b : Batch) (cap : Option ℕ) (r : Option Shape × Bool) (m : Metadata)
    → (with_buffers c b cap r).1 ≡ updated m
    → (r.1 ≡ true) × (b.last ≤ b.num_query_tokens) × (m ≡ expand c b cap)
with_buffers-updated c b cap (shape, false) m e = cc
with_buffers-updated c b cap (shape, true) m e = ground arith

-- A guard that was passed.
through :
    (test : Bool) (s : Option Shape) (r : Option Shape × Update) (m : Metadata)
    → (if test then (s, skipped) else r).1 ≡ updated m
    → (if test then (s, skipped) else r) ≡ r
through true s r m e = cc
through false s r m e = refl

-- A guard that leaves the shape alone.
either_shape :
    (test : Bool) (s : Option Shape) (r : Option Shape × Update)
    → r.0 ≡ s
    → (if test then (s, skipped) else r).0 ≡ s
either_shape true s r e = refl
either_shape false s r e = e

-- A call that writes metadata gets to the end of the method.
update-served :
    (c : Config) (b : Batch) (force : Bool) (cap : Option ℕ) (before : Option Shape) (m : Metadata)
    → (update_metadata c b force cap before).1 ≡ updated m
    → update_metadata c b force cap before
      ≡ with_buffers c b cap (ensure_buffers c b.num_query_tokens b.num_reqs b.block_cols before)
unfolding update_metadata
update-served c b force cap before m e =
    through (declines c b force before) before
      (with_buffers c b cap (ensure_buffers c b.num_query_tokens b.num_reqs b.block_cols before)) m
      e

-- A call that writes metadata writes rows that the buffers hold, and for no more tokens than the
-- batch has room for; buffers that were allocated before are the ones it writes.
pub update-IsServed :
    (c : Config) (b : Batch) (force : Bool) (cap : Option ℕ) (before : Option Shape) (m : Metadata)
    → (update_metadata c b force cap before).1 ≡ updated m
    → IsServed b.num_query_tokens b.num_reqs b.block_cols before
        (update_metadata c b force cap before).0
      × (b.last ≤ b.num_query_tokens)
      × (m ≡ expand c b cap)
update-IsServed c b force cap before m e =
    let r = ensure_buffers c b.num_query_tokens b.num_reqs b.block_cols before in
    let end = update-served c b force cap before m e in
    let (served, room, same) = with_buffers-updated c b cap r m (sym (ap (λ x. x.1) end) ∙ e) in
    (
      subst (IsServed b.num_query_tokens b.num_reqs b.block_cols before)
          (sym (ap (λ x. x.0) end ∙ with_buffers-shape c b cap r))
          (ensure-IsServed c b.num_query_tokens b.num_reqs b.block_cols before served),
      room,
      same,
    )

pub update-stays :
    (c : Config) (b : Batch) (force : Bool) (cap : Option ℕ) (old : Shape)
    → (update_metadata c b force cap (some old)).0 ≡ some old
unfolding update_metadata
update-stays c b force cap old =
    let r = ensure_buffers c b.num_query_tokens b.num_reqs b.block_cols (some old) in
    either_shape (declines c b force (some old)) (some old) (with_buffers c b cap r)
      (with_buffers-shape c b cap r ∙ ensure-stays c b.num_query_tokens b.num_reqs b.block_cols old)

-- Calls of the method, each with its batch, its force and its cap.
unfoldable pub after_updates : Config → List (Batch × Bool × Option ℕ) → Option Shape → Option Shape
after_updates c [] s = s
after_updates c ((b, force, cap) ∷ calls) s =
    after_updates c calls (update_metadata c b force cap s).0

-- Buffers are allocated once: whatever calls follow, served, skipped or refused, they stay, so that
-- the addresses in a captured graph stay those that later calls write.
pub after_updates-stays :
    (c : Config) (calls : List (Batch × Bool × Option ℕ)) (old : Shape)
    → after_updates c calls (some old) ≡ some old
unfolding after_updates
after_updates-stays c [] old = refl
after_updates-stays c ((b, force, cap) ∷ calls) old =
    ap (after_updates c calls) (update-stays c b force cap old) ∙ after_updates-stays c calls old
