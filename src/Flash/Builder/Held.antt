-- ===== src/Flash/Builder/Held.antt =====
-- A captured decode and the steps that replay it.
use v100_skinny_unify.Prelude.{
  ℕ, zero, suc, ◌+◌, ◌≤◌, ◌<◌, ◌≡◌, refl, sym, ap, ◌∙◌, Bool, true, false, Option, none, some, List,
  [], ◌∷◌, ltb, ◌==◌, ◌&&◌, if◌then◌else◌, if_true, if_false, Bool-cases, inl, inr, arith,
}
use v100_skinny_unify.Prelude.Lists.{length, get_or, get_elem?, take}
use v100_skinny_unify.Prelude.Options.{some_injective}
use v100_skinny_unify.Flash.Smallq.{Batch}
use v100_skinny_unify.Flash.Builder.{
  DraftShape, Draft, State, ensure_draft, copied, refreshed, stabilize, and_then, with_active,
  Settings, Call, attach, bind_rows, update_smallq, build_for_cudagraph_capture, has_draft,
  refresh_draft, refresh_smallq, build, Kind, capture, runtime, run, after_builds,
}
use v100_skinny_unify.Flash.Builder.Stays.{stabilize-Keeps, after_builds-Keeps}

-- The rows of a batch are in the buffers of a shape.
pub record Fits (b : Batch) (d : DraftShape) : Type 0 where
  pub reqs : b.num_reqs ≤ d.reqs
  pub cols : b.block_cols ≡ d.block_cols

-- The buffers hold the rows of a batch: for each of its requests the row of its block table and its
-- length, and the locations of all.
pub record Holds (b : Batch) (d : Draft) : Type 0 where
  pub fits : Fits b d.shape
  pub block_table :
      (i : ℕ)
      → i < b.num_reqs
      → i < length b.block_table
      → get_elem? b.block_table i ≡ some (d.block_table i)
  pub seq_lens :
      (i : ℕ)
      → i < b.num_reqs
      → i < length b.seq_lens
      → get_elem? b.seq_lens i ≡ some (d.seq_lens i)
  pub query_start_loc :
      (i : ℕ)
      → i < b.num_reqs + 1
      → i < length b.query_start_loc
      → get_elem? b.query_start_loc i ≡ some (d.query_start_loc i)

-- An element below both bounds is copied.
copied-take :
    {X : Type 0} (xs : List X) (n i : ℕ) (buffer : ℕ → X)
    → i < n
    → i < length xs
    → get_elem? xs i ≡ some (copied (take n xs) buffer i)
unfolding copied
copied-take xs n i buffer lt within =
    let (fits, at) = taken xs n i (buffer i) lt within in
    at ∙ ap some (sym (if_true (ltb i (length (take n xs))) _ (buffer i) fits))
  where
    taken :
        {Y : Type 0} (ys : List Y) (m j : ℕ) (d : Y)
        → j < m
        → j < length ys
        → (ltb j (length (take m ys)) ≡ true) × (get_elem? ys j ≡ some (get_or (take m ys) j d))
    taken [] m j d lt within = absurd (omega arith)
    taken (y ∷ ys) zero j d lt within = absurd (omega arith)
    taken (y ∷ ys) (suc m) zero d lt within = (ground arith, refl)
    taken (y ∷ ys) (suc m) (suc j) d lt within =
        let (fits, at) = taken ys m j d (omega arith) (omega arith) in (ground arith, at)

refreshed-Holds : (b : Batch) (d : Draft) → Fits b d.shape → Holds b (refreshed b d)
unfolding refreshed
refreshed-Holds b d fits = record {
  fits = fits;
  block_table = λ i lt within. copied-take b.block_table b.num_reqs i d.block_table lt within;
  seq_lens = λ i lt within. copied-take b.seq_lens b.num_reqs i d.seq_lens lt within;
  query_start_loc =
      λ i lt within. copied-take b.query_start_loc (b.num_reqs + 1) i d.query_start_loc lt within;
}

ensure_draft-Fits :
    (o : Settings) (b : Batch) (old : Option Draft) (n : ℕ)
    → (ensure_draft o b.num_reqs b.block_cols old n).2 ≡ true
    → Fits b (ensure_draft o b.num_reqs b.block_cols old n).0.shape
unfolding ensure_draft
ensure_draft-Fits o b none n e = record { reqs = omega arith; cols = refl }
ensure_draft-Fits o b (some old) n e = record { reqs = ground arith; cols = ground arith }

stabilize-Holds :
    (o : Settings) (b : Batch) (s : State)
    → 0 < b.num_reqs
    → (stabilize o b s).1 ≡ true
    → (d : Draft) × ((stabilize o b s).0.draft ≡ some d) × Holds b d
unfolding stabilize
stabilize-Holds o b s some_request e =
    let r = ensure_draft o b.num_reqs b.block_cols s.draft s.allocations in
    let served : State × Bool =
      (record s { draft = some (refreshed b r.0); allocations = r.1 }, true) in
    let refused : State × Bool = (record s { draft = some r.0; allocations = r.1 }, false) in
    let out : stabilize o b s ≡ (if r.2 then served else refused) =
      if_false (b.num_reqs == 0) (s, true) (if r.2 then served else refused) (ground arith) in
    elim (Bool-cases r.2) [
      | inl yes_served ↦ (
        refreshed b r.0,
        ap (λ (x : State × Bool). x.0.draft) (out ∙ if_true r.2 served refused yes_served),
        refreshed-Holds b r.0 (ensure_draft-Fits o b s.draft s.allocations yes_served),
      )
      | inr not_served ↦
          let never : false ≡ true =
            sym (ap (λ (x : State × Bool). x.1) (out ∙ if_false r.2 served refused not_served))
            ∙ e in
          cc
    ]

-- A chain that returns returned at its first step.
and_then-first :
    (r : State × Bool) (next : State → State × Bool) → (and_then r next).1 ≡ true → r.1 ≡ true
unfolding and_then
and_then-first (s, true) next e = refl
and_then-first (s, false) next e = e

-- What comes after the draft buffers leaves them alone.
attach-draft :
    (o : Settings) (a : Call) (static : Bool) (s : State) → (attach o a static s).0.draft ≡ s.draft
unfolding attach
attach-draft o a static s = with_active-draft s _
  where
    with_active-draft :
        (x : State) (r : Option (Option ℕ × Option ℕ)) → (with_active x r).0.draft ≡ x.draft
    with_active-draft x none = refl
    with_active-draft x (some (buffer, active)) = refl

refresh_smallq-draft :
    (o : Settings) (a : Call) (s : State) → (refresh_smallq o a s).0.draft ≡ s.draft
unfolding refresh_smallq update_smallq
refresh_smallq-draft o a s = ground arith

and_then-draft :
    (r : State × Bool) (next : State → State × Bool)
    → ((s : State) → (next s).0.draft ≡ s.draft)
    → (and_then r next).0.draft ≡ r.0.draft
unfolding and_then
and_then-draft (s, true) next same = same s
and_then-draft (s, false) next same = refl

capture-draft :
    (o : Settings) (a : Call) (s : State)
    → a.batch.max_query_len ≤ 1
    → 0 < a.batch.num_reqs
    → (run o (capture, a) s).1 ≡ true
    → (d : Draft) × ((run o (capture, a) s).0.draft ≡ some d) × Holds a.batch d
unfolding run build_for_cudagraph_capture bind_rows
capture-draft o a s decode some_request e =
    let first = and_then-first (bind_rows o a s) (attach o a true) e in
    let bound : bind_rows o a s ≡ stabilize o a.batch s =
      if_false (ltb 1 a.batch.max_query_len) _ _ (ground arith) in
    let (d, at, holds) =
      stabilize-Holds o a.batch s some_request
        (sym (ap (λ (x : State × Bool). x.1) bound) ∙ first) in
    (
      d,
      and_then-draft (bind_rows o a s) (attach o a true) (attach-draft o a true)
          ∙ ap (λ (x : State × Bool). x.0.draft) bound
          ∙ at,
      holds,
    )

runtime-draft :
    (o : Settings) (b : Call) (s : State) (d : Draft)
    → s.draft ≡ some d
    → b.batch.max_query_len ≡ 1
    → 0 < b.batch.num_reqs
    → (run o (runtime, b) s).1 ≡ true
    → (d' : Draft) × ((run o (runtime, b) s).0.draft ≡ some d')
      × (d'.buffer ≡ d.buffer)
      × (d'.shape ≡ d.shape)
      × Holds b.batch d'
unfolding run build refresh_draft
runtime-draft o b s d at decode some_request e =
    let next : State → State × Bool = λ s'. and_then (refresh_smallq o b s') (attach o b false) in
    let first = and_then-first (refresh_draft o b s) next e in
    let there : has_draft s.draft ≡ true = ap has_draft at in
    let fresh : refresh_draft o b s ≡ stabilize o b.batch s =
      if_true (b.batch.max_query_len == 1 && has_draft s.draft) _ (s, true) (ground arith) in
    let (d', at', holds) =
      stabilize-Holds o b.batch s some_request
        (sym (ap (λ (x : State × Bool). x.1) fresh) ∙ first) in
    let (d'', at'', one, shape) = (stabilize-Keeps o b.batch s).draft d at in
    let same : d'' ≡ d' = some_injective (sym at'' ∙ at') in
    (
      d',
      and_then-draft (refresh_draft o b s) next (λ s'.
            and_then-draft (refresh_smallq o b s') (attach o b false) (attach-draft o b false)
            ∙ refresh_smallq-draft o b s')
          ∙ ap (λ (x : State × Bool). x.0.draft) fresh
          ∙ at',
      ap (λ (x : Draft). x.buffer) (sym same) ∙ one,
      ap (λ (x : Draft). x.shape) (sym same) ∙ shape,
      holds,
    )

-- A decode that was captured is replayed on its own buffers, with the step's rows: after a capture of
-- a decode that returned and any builds, a step that is a decode and returns leaves the draft buffers
-- that the capture bound to, not allocated again, and they hold for each request of the step its row
-- of the block table and its length, and the locations, whatever they held before. The requests and
-- the columns of both fit. Both have requests.
pub decode-Holds :
    (o : Settings) (a b : Call) (calls : List (Kind × Call)) (s : State)
    → a.batch.max_query_len ≤ 1
    → 0 < a.batch.num_reqs
    → (run o (capture, a) s).1 ≡ true
    → b.batch.max_query_len ≡ 1
    → 0 < b.batch.num_reqs
    → (run o (runtime, b) (after_builds o calls (run o (capture, a) s).0)).1 ≡ true
    → (d : Draft) × ((run o (capture, a) s).0.draft ≡ some d)
      × Holds a.batch d
      × ((d' : Draft) × ((run o
              (runtime, b)
              (after_builds o calls (run o (capture, a) s).0)).0.draft
            ≡ some d')
          × (d'.buffer ≡ d.buffer)
          × (d'.shape ≡ d.shape)
          × Holds b.batch d')
decode-Holds o a b calls s short some_a captured decode some_b stepped =
    let (d, at, holds) = capture-draft o a s short some_a captured in
    let (later, at', one, shape) =
      (after_builds-Keeps o calls (run o (capture, a) s).0).draft d at in
    let (d', now, one', shape', holds') =
      runtime-draft o b (after_builds o calls (run o (capture, a) s).0) later at' decode some_b
        stepped in
    (d, at, holds, (d', now, one' ∙ one, shape' ∙ shape, holds'))
