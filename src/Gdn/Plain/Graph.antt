-- ===== src/Gdn/Plain/Graph.antt =====
-- What a captured graph that decodes touches.
use v100_skinny_unify.Prelude.{
  ℕ, ◌+◌, ◌≤◌, ◌<◌, ◌≡◌, refl, sym, ap, ◌∙◌, Bool, Bool-cases, true, false, some, List, ◌∷◌, leb,
  ltb, ◌==◌, ◌&&◌, if_true, inl, inr, arith,
}
use v100_skinny_unify.Prelude.Options.{>>=-first, some_injective, if_cases}
use v100_skinny_unify.Prelude.Lists.{length, get_elem?, get-some}
use v100_skinny_unify.Queries.{query_lens, last_or}
use v100_skinny_unify.Gdn.Contract.{ensure}
use v100_skinny_unify.Gdn.Fast.{fill, copy}
use v100_skinny_unify.Gdn.Fast.Tails.{fill-in, fill-out}
use v100_skinny_unify.Gdn.Plain.{
  Plain, selected_states, masked_states, GraphRows, plain, graph, graph_rows, build_plain,
}
use v100_skinny_unify.Gdn.Plain.Padding.{get_or-some, IsIdle, masked-pad}

copy-at :
    {X : Type 0} (xs : List X) (buffer : ℕ → X) (r : ℕ) (a : X)
    → get_elem? xs r ≡ some a
    → r < length xs
    → copy xs buffer r ≡ a
unfolding copy
copy-at xs buffer r a e lt =
    if_true (ltb r (length xs)) _ _ (ground arith) ∙ get_or-some xs r a (buffer r) e

ensured :
    {X : Type 0} (test : Bool) (x y : X) → ensure test (some x) ≡ some y → (test ≡ true) × (x ≡ y)
unfolding ensure
ensured true x y e = (refl, some_injective e)
ensured false x y e = cc

module _ {A : Type 0} (pad : A) where
  made : Plain A → ℕ → List A → (ℕ → A) → (ℕ → ℕ) → GraphRows A
  made i n states state_buffer start_buffer = record {
    states = fill n i.batch_size pad (copy states state_buffer);
    starts =
        fill (n + 1) (i.batch_size + 1) (last_or i.first_start i.ends)
          (copy (i.first_start ∷ i.ends) start_buffer);
  }

  graph_rows-some :
      (i : Plain A) (n m : ℕ) (states : List A) (state_buffer : ℕ → A) (start_buffer : ℕ → ℕ)
      (rows : GraphRows A)
      → graph_rows pad i n states state_buffer start_buffer ≡ some (graph m rows)
      → (n ≡ m) × (length states ≡ n) × (made i n states state_buffer start_buffer ≡ rows)
  unfolding graph_rows made
  graph_rows-some i n m states state_buffer start_buffer rows e =
      let (tests, same) =
        ensured (length states == n && length i.ends == n)
          (graph n (made i n states state_buffer start_buffer)) (graph m rows) e in
      (cc, ground arith, cc)

  -- The steps of a build that makes the rows of a graph.
  record Steps (split : List ℕ → ℕ × ℕ) (i : Plain A) (state_buffer : ℕ → A) (start_buffer : ℕ → ℕ)
      (n : ℕ) (rows : GraphRows A) : Type 0 where
    selected : List A
    states : List A
    masked : masked_states pad i (query_lens (i.first_start ∷ i.ends)) 0 selected ≡ some states
    many : length states ≡ n
    are : made i n states state_buffer start_buffer ≡ rows

  build_plain-Steps :
      (split : List ℕ → ℕ × ℕ) (i : Plain A) (state_buffer : ℕ → A) (start_buffer : ℕ → ℕ) (n : ℕ)
      (rows : GraphRows A)
      → build_plain pad split i state_buffer start_buffer ≡ some (graph n rows)
      → Steps split i state_buffer start_buffer n rows
  unfolding build_plain
  build_plain-Steps split i state_buffer start_buffer n rows e =
      let lens = query_lens (i.first_start ∷ i.ends) in
      let counts = split lens in
      let (selected, _, e1) = >>=-first (selected_states pad i) _ e in
      let (states, masked, e2) = >>=-first (masked_states pad i lens counts.1 selected) _ e1 in
      elim (if_cases
        (i.use_full_cuda_graph && counts.1 == 0 && leb counts.0 i.decode_cudagraph_max_bs)
        (graph_rows pad i counts.0 states state_buffer start_buffer) (some (plain states))
        (graph n rows) e2) [
          | inl (on, e3) ↦
              let (number, many, are) =
                graph_rows-some i counts.0 n states state_buffer start_buffer rows e3 in
              let none_left : counts.1 ≡ 0 = ground arith in
              record {
                selected = selected;
                states = states;
                masked = ap (λ k. masked_states pad i lens k selected) (sym none_left) ∙ masked;
                many = many ∙ number;
                are = ap (λ k. made i k states state_buffer start_buffer) (sym number) ∙ are;
              }
          | inr (_, e3) ↦ cc
        ]

  -- A captured graph that decodes touches no slot for an idle row: the rows past the decodes, those
  -- of requests without tokens and, in a capture, all rows have the padding slot, whatever was in
  -- the buffers; and the locations past the decodes are all the end of the queries, so that the
  -- queries there are empty.
  pub build_plain-IsIdle :
      (split : List ℕ → ℕ × ℕ) (i : Plain A) (state_buffer : ℕ → A) (start_buffer : ℕ → ℕ) (n r : ℕ)
      (rows : GraphRows A)
      → build_plain pad split i state_buffer start_buffer ≡ some (graph n rows)
      → r < i.batch_size
      → (IsIdle pad i n r → rows.states r ≡ pad)
        × (n ≤ r → rows.starts (r + 1) ≡ last_or i.first_start i.ends)
  unfolding made
  build_plain-IsIdle split i state_buffer start_buffer n r rows e inside =
      let s = build_plain-Steps split i state_buffer start_buffer n rows e in
      let last = last_or i.first_start i.ends in
      let row : fill n i.batch_size pad (copy s.states state_buffer) r ≡ rows.states r =
        ap (λ x. x.states r) s.are in
      let start : fill (n + 1) (i.batch_size + 1) last (copy (i.first_start ∷ i.ends) start_buffer)
            (r + 1)
          ≡ rows.starts (r + 1) =
        ap (λ x. x.starts (r + 1)) s.are in
      let past : n ≤ r → rows.states r ≡ pad =
        λ le. sym row ∙ fill-in n i.batch_size r pad (copy s.states state_buffer) le inside in
      (
        λ idle. elim (Bool-cases (leb n r)) [
          | inl beyond ↦ past (ground arith)
          | inr within ↦ elim idle [
            | inl beyond ↦ past beyond
            | inr none_there ↦
                let lt : r < length s.states = ground (arith, s.many) in
                let (a, at) = get-some s.states r lt in
                sym row
                ∙ fill-out n i.batch_size r pad (copy s.states state_buffer) (inl (ground arith))
                ∙ copy-at s.states state_buffer r a at lt
                ∙ masked-pad pad i (query_lens (i.first_start ∷ i.ends)) 0 s.selected s.states r a
                    s.masked refl none_there at
          ]
        ],
        λ le.
            sym start
            ∙ fill-in (n + 1) (i.batch_size + 1) (r + 1) last
                (copy (i.first_start ∷ i.ends) start_buffer) (omega arith) (omega arith),
      )
