-- ===== src/Flash/Builder/Stays.antt =====
-- What has been allocated stays, and what a build writes fits it.
use v100_skinny_unify.Prelude.{
  ℕ, ◌≡◌, refl, sym, ap, ◌∙◌, max, Bool, true, false, Option, none, some, List, [], ◌∷◌, ltb, ◌==◌,
  ◌&&◌, if◌then◌else◌,
}
use v100_skinny_unify.Prelude.Options.{>>=-first, some_injective}
use v100_skinny_unify.Flash.Pages.{cdiv_int}
use v100_skinny_unify.Flash.Smallq.{Config, Shape, Batch, update_metadata}
use v100_skinny_unify.Flash.Smallq.Buffers.{update-stays}
use v100_skinny_unify.Flash.Decode.{
  Setting, write_active, update_active, decode_shape_hints, attach_decode, partition_size_for,
}
use v100_skinny_unify.Flash.Builder.{
  Draft, State, ensure_draft, refreshed, stabilize, update_smallq, with_active, and_then, Settings,
  Call, attach, build_for_cudagraph_capture, build, build_for_drafting, Kind, capture, runtime,
  drafting, run, after_builds, filled, nonzero, has_draft, bind_rows, refresh_draft, refresh_smallq,
}

-- The same draft buffers, whatever they hold.
abbrev pub StillThere : Draft → Option Draft → Type 0
StillThere d o = (d' : Draft) × (o ≡ some d') × (d'.buffer ≡ d.buffer) × (d'.shape ≡ d.shape)

StillThere-same : (d : Draft) (o : Option Draft) → o ≡ some d → StillThere d o
StillThere-same d o e = (d, e, refl, refl)

-- Buffers that are there are the same afterwards.
pub record Keeps (s s' : State) : Type 0 where
  pub draft : (d : Draft) → s.draft ≡ some d → StillThere d s'.draft
  pub smallq : (q : Shape) → s.smallq ≡ some q → s'.smallq ≡ some q
  pub active : (n : ℕ) → s.active ≡ some n → (m : ℕ) × (s'.active ≡ some m)

Keeps-refl : (s : State) → Keeps s s
Keeps-refl s = record {
  draft = λ d e. StillThere-same d s.draft e;
  smallq = λ q e. e;
  active = λ n e. (n, e);
}

Keeps-trans : (a b c : State) → Keeps a b → Keeps b c → Keeps a c
Keeps-trans a b c h k = record {
  draft = λ d e.
      let (d', at, one, shape) = h.draft d e in
      let (d'', at', one', shape') = k.draft d' at in (d'', at', one' ∙ one, shape' ∙ shape);
  smallq = λ q e. k.smallq q (h.smallq q e);
  active = λ n e. let (m, e') = h.active n e in k.active m e';
}

and_then-Keeps :
    (s : State) (r : State × Bool) (next : State → State × Bool)
    → Keeps s r.0
    → ((s' : State) → Keeps s' (next s').0)
    → Keeps s (and_then r next).0
unfolding and_then
and_then-Keeps s (s', true) next h k = Keeps-trans s s' (next s').0 h (k s')
and_then-Keeps s (s', false) next h k = h

if-Keeps :
    (s : State) (test : Bool) (a b : State × Bool)
    → Keeps s a.0
    → Keeps s b.0
    → Keeps s (if test then a else b).0
if-Keeps s true a b h k = h
if-Keeps s false a b h k = k

ensure_draft-keeps :
    (o : Settings) (r c : ℕ) (old : Option Draft) (n : ℕ) (d : Draft)
    → old ≡ some d
    → (ensure_draft o r c old n).0 ≡ d
unfolding ensure_draft
ensure_draft-keeps o r c none n d e = cc
ensure_draft-keeps o r c (some old) n d e = some_injective e

pub stabilize-Keeps : (o : Settings) (b : Batch) (s : State) → Keeps s (stabilize o b s).0
unfolding stabilize refreshed
stabilize-Keeps o b s =
    let r = ensure_draft o b.num_reqs b.block_cols s.draft s.allocations in
    let kept = λ (d : Draft) (e : s.draft ≡ some d).
      ensure_draft-keeps o b.num_reqs b.block_cols s.draft s.allocations d e in
    let served : State × Bool =
      (record s { draft = some (refreshed b r.0); allocations = r.1 }, true) in
    let refused : State × Bool = (record s { draft = some r.0; allocations = r.1 }, false) in
    if-Keeps s (b.num_reqs == 0) (s, true) (if r.2 then served else refused) (Keeps-refl s)
      (if-Keeps s r.2 served refused
        (record {
          draft = λ d e. (
            refreshed b r.0,
            refl,
            ap (λ (x : Draft). x.buffer) (kept d e),
            ap (λ (x : Draft). x.shape) (kept d e),
          );
          smallq = λ q e. e;
          active = λ m e. (m, e);
        })
        (record {
          draft = λ d e. (
            r.0,
            refl,
            ap (λ (x : Draft). x.buffer) (kept d e),
            ap (λ (x : Draft). x.shape) (kept d e),
          );
          smallq = λ q e. e;
          active = λ m e. (m, e);
        }))

update_smallq-Keeps :
    (c : Config) (b : Batch) (force : Bool) (cap : Option ℕ) (s : State)
    → Keeps s (update_smallq c b force cap s).0
unfolding update_smallq
update_smallq-Keeps c b force cap s = record {
  draft = λ d e. StillThere-same d s.draft e;
  smallq = λ q e. ap (λ o. (update_metadata c b force cap o).0) e ∙ update-stays c b force cap q;
  active = λ m e. (m, e);
}

written-some :
    (setting : Setting) (hint : ℕ) (r : Option ℕ × Option ℕ)
    → write_active setting hint ≡ some r
    → (m : ℕ) × (r.0 ≡ some m)
unfolding write_active
written-some setting hint r e =
    let (size, found, e') = >>=-first (partition_size_for setting (some hint)) _ e in
    (max 1 (cdiv_int hint size), sym (ap (λ (p : Option ℕ × Option ℕ). p.0) (some_injective e')))

active_some :
    (enabled : Bool) (setting : Setting) (hint workspace : Option ℕ) (n : ℕ)
    (r : Option ℕ × Option ℕ)
    → update_active enabled setting hint workspace (some n) ≡ some r
    → (m : ℕ) × (r.0 ≡ some m)
unfolding update_active
active_some false setting hint workspace n r e =
    (n, sym (ap (λ (p : Option ℕ × Option ℕ). p.0) (some_injective e)))
active_some true setting none workspace n r e =
    (n, sym (ap (λ (p : Option ℕ × Option ℕ). p.0) (some_injective e)))
active_some true setting (some hint) none n r e = written-some setting hint r e
active_some true setting (some hint) (some w) n r e = written-some setting hint r e

with_active-Keeps :
    (s : State) (o : Option (Option ℕ × Option ℕ))
    → ((n : ℕ) (r : Option ℕ × Option ℕ)
        → s.active ≡ some n
        → o ≡ some r
        → (m : ℕ) × (r.0 ≡ some m))
    → Keeps s (with_active s o).0
with_active-Keeps s none h = Keeps-refl s
with_active-Keeps s (some (buffer, active)) h = record {
  draft = λ d e. StillThere-same d s.draft e;
  smallq = λ q e. e;
  active = λ n e. h n (buffer, active) e refl;
}

pub attach-Keeps :
    (o : Settings) (a : Call) (static : Bool) (s : State) → Keeps s (attach o a static s).0
unfolding attach attach_decode
attach-Keeps o a static s =
    let hints = decode_shape_hints o.config.block_size a.lengths static in
    with_active-Keeps s _ λ n r e found.
      active_some o.enabled o.partition_size hints.max_seq_len hints.workspace_seq_capacity n r (
        ap (update_active o.enabled o.partition_size hints.max_seq_len hints.workspace_seq_capacity)
          (sym e)
        ∙ found)

bind_rows-Keeps : (o : Settings) (a : Call) (s : State) → Keeps s (bind_rows o a s).0
unfolding bind_rows
bind_rows-Keeps o a s =
    if-Keeps s (ltb 1 a.batch.max_query_len)
      (update_smallq o.config (filled a.batch) true (nonzero a.lengths.max_seq_len) s)
      (stabilize o a.batch s)
      (update_smallq-Keeps o.config (filled a.batch) true (nonzero a.lengths.max_seq_len) s)
      (stabilize-Keeps o a.batch s)

refresh_draft-Keeps : (o : Settings) (a : Call) (s : State) → Keeps s (refresh_draft o a s).0
unfolding refresh_draft
refresh_draft-Keeps o a s =
    if-Keeps s (a.batch.max_query_len == 1 && has_draft s.draft) (stabilize o a.batch s) (s, true)
      (stabilize-Keeps o a.batch s) (Keeps-refl s)

refresh_smallq-Keeps : (o : Settings) (a : Call) (s : State) → Keeps s (refresh_smallq o a s).0
unfolding refresh_smallq
refresh_smallq-Keeps o a s =
    if-Keeps s a.tree (s, true) (update_smallq o.config a.batch false none s) (Keeps-refl s)
      (update_smallq-Keeps o.config a.batch false none s)

-- The end of a step and of a draft.
finish-Keeps :
    (o : Settings) (a : Call) (s : State) (r : State × Bool)
    → Keeps s r.0
    → Keeps s (and_then r (attach o a false)).0
finish-Keeps o a s r h = and_then-Keeps s r (attach o a false) h (attach-Keeps o a false)

run-Keeps : (o : Settings) (kind : Kind) (a : Call) (s : State) → Keeps s (run o (kind, a) s).0
unfolding run build build_for_cudagraph_capture build_for_drafting
run-Keeps o capture a s =
    and_then-Keeps s (bind_rows o a s) (attach o a true) (bind_rows-Keeps o a s)
      (attach-Keeps o a true)
run-Keeps o runtime a s =
    and_then-Keeps s (refresh_draft o a s)
      (λ s'. and_then (refresh_smallq o a s') (attach o a false)) (refresh_draft-Keeps o a s)
      (λ s'. finish-Keeps o a s' (refresh_smallq o a s') (refresh_smallq-Keeps o a s'))
run-Keeps o drafting a s =
    and_then-Keeps s (stabilize o a.batch s)
      (λ s'. and_then (update_smallq o.config a.batch false none s') (attach o a false))
      (stabilize-Keeps o a.batch s)
      (λ s'.
        finish-Keeps o a s' (update_smallq o.config a.batch false none s')
          (update_smallq-Keeps o.config a.batch false none s'))

-- Whatever builds follow, for a capture, a step or a draft, and whether they return or raise, the draft
-- buffers are not allocated again, those of the small queries keep their shape, and that of the active
-- partitions stays allocated.
pub after_builds-Keeps :
    (o : Settings) (calls : List (Kind × Call)) (s : State) → Keeps s (after_builds o calls s)
unfolding after_builds
after_builds-Keeps o [] s = Keeps-refl s
after_builds-Keeps o ((kind, a) ∷ calls) s =
    Keeps-trans s (run o (kind, a) s).0 (after_builds o calls (run o (kind, a) s).0)
      (run-Keeps o kind a s) (after_builds-Keeps o calls (run o (kind, a) s).0)
