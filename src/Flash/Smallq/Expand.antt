-- ===== src/Flash/Smallq/Expand.antt =====
-- Repeating the requests of a batch by their query lengths.
use v100_skinny_unify.Prelude.{
  ℕ, zero, suc, ◌+◌, ◌-◌, ◌<◌, ◌≤◌, ◌≡◌, refl, sym, ap, ◌∙◌, some, List, [], ◌∷◌, ◌++◌, arith,
}
use mathlib.Core.Path.{subst}
use v100_skinny_unify.Prelude.Options.{some_injective}
use v100_skinny_unify.Prelude.Lists.{
  get_elem?, replicate, get-replicate, get-in_copies, get-after_copies,
}
use v100_skinny_unify.Prelude.Int.{ℤ}
use v100_skinny_unify.Queries.{IsMonotone, last_or}
use v100_skinny_unify.Flash.Smallq.{Span, spans, repeat_spans, decode_row, decode_rows}

-- The requests follow one another from `start` on, and no query is longer than its sequence.
abbrev pub IsLaid : ℕ → List Span → Type 0
IsLaid start [] = Unit {0}
IsLaid start (s ∷ ss) =
    (s.start ≡ start) × (s.query_len ≤ s.seq_len) × IsLaid (start + s.query_len) ss

IsLaid-at : (a b : ℕ) (ss : List Span) → a ≡ b → IsLaid a ss → IsLaid b ss
IsLaid-at a b ss e h = subst (λ n. IsLaid n ss) e h

pub spans-IsLaid :
    (a : ℕ) (locs seq_lens : List ℕ) (rows : List (List ℤ))
    → IsMonotone (a ∷ locs)
    → IsLaid a (spans (a ∷ locs) seq_lens rows)
unfolding spans
spans-IsLaid a [] seq_lens rows h = tt
spans-IsLaid a (b ∷ locs) [] rows h = tt
spans-IsLaid a (b ∷ locs) (seq_len ∷ seq_lens) [] h = tt
spans-IsLaid a (b ∷ locs) (seq_len ∷ seq_lens) (row ∷ rows) (le, rest) = (
  refl,
  omega arith,
  IsLaid-at b (a + (b - a)) (spans (b ∷ locs) seq_lens rows) (omega arith)
      (spans-IsLaid b locs seq_lens rows rest),
)

last-le : (a : ℕ) (locs : List ℕ) → IsMonotone (a ∷ locs) → a ≤ last_or a locs
last-le a [] h = omega arith
last-le a (b ∷ locs) (le, rest) = omega (arith, last-le b locs rest)

-- Every query ends at or before the last location.
pub spans-end :
    (a k : ℕ) (locs seq_lens : List ℕ) (rows : List (List ℤ)) (s : Span)
    → IsMonotone (a ∷ locs)
    → get_elem? (spans (a ∷ locs) seq_lens rows) k ≡ some s
    → s.start + s.query_len ≤ last_or a locs
unfolding spans
spans-end a k [] seq_lens rows s h e = cc
spans-end a k (b ∷ locs) [] rows s h e = cc
spans-end a k (b ∷ locs) (seq_len ∷ seq_lens) [] s h e = cc
spans-end a zero (b ∷ locs) (seq_len ∷ seq_lens) (row ∷ rows) s (le, rest) e =
    ground (arith, last-le b locs rest)
spans-end a (suc k) (b ∷ locs) (seq_len ∷ seq_lens) (row ∷ rows) s (le, rest) e =
    spans-end b k locs seq_lens rows s rest e

laid-le :
    (start k : ℕ) (ss : List Span) (s : Span)
    → IsLaid start ss
    → get_elem? ss k ≡ some s
    → start ≤ s.start
laid-le start k [] s h e = cc
laid-le start zero (x ∷ ss) s (at, le, rest) e = ground arith
laid-le start (suc k) (x ∷ ss) s (at, le, rest) e =
    omega (arith, laid-le (start + x.query_len) k ss s rest e)

pub laid-query :
    (start k : ℕ) (ss : List Span) (s : Span)
    → IsLaid start ss
    → get_elem? ss k ≡ some s
    → s.query_len ≤ s.seq_len
laid-query start k [] s h e = cc
laid-query start zero (x ∷ ss) s (at, le, rest) e = ground arith
laid-query start (suc k) (x ∷ ss) s (at, le, rest) e =
    laid-query (start + x.query_len) k ss s rest e

-- Token j of a request stands at its place in the batch.
pub get-repeat_spans :
    (padding start k j i : ℕ) (ss : List Span) (s : Span)
    → IsLaid start ss
    → get_elem? ss k ≡ some s
    → j < s.query_len
    → start + i ≡ s.start + j
    → get_elem? (repeat_spans padding ss) i ≡ some s
unfolding repeat_spans
get-repeat_spans padding start k j i [] s h e lt at = cc
get-repeat_spans padding start zero j i (x ∷ []) s (first, le, rest) e lt at =
    let same : x ≡ s = some_injective e in
    let at' : x.start + i ≡ x.start + j =
      ap (λ n. n + i) first ∙ at ∙ ap (λ r. r.start + j) (sym same) in
    let lt' : j < x.query_len = subst (λ r. j < r.query_len) (sym same) lt in
    get-replicate (x.query_len + padding) i x (omega arith) ∙ e
get-repeat_spans padding start (suc k) j i (x ∷ []) s h e lt at = cc
get-repeat_spans padding start zero j i (x ∷ y ∷ ss) s (first, le, rest) e lt at =
    let same : x ≡ s = some_injective e in
    let at' : x.start + i ≡ x.start + j =
      ap (λ n. n + i) first ∙ at ∙ ap (λ r. r.start + j) (sym same) in
    let lt' : j < x.query_len = subst (λ r. j < r.query_len) (sym same) lt in
    get-in_copies x.query_len i x (repeat_spans padding (y ∷ ss)) (omega arith) ∙ e
get-repeat_spans padding start (suc k) j i (x ∷ y ∷ ss) s (first, le, rest) e lt at =
    let later = laid-le (start + x.query_len) k (y ∷ ss) s rest e in
    let i' = i - x.query_len in
    let split : i ≡ x.query_len + i' = omega arith in
    ap (get_elem? (replicate x.query_len x ++ repeat_spans padding (y ∷ ss))) split
    ∙ get-after_copies x.query_len i' x (repeat_spans padding (y ∷ ss))
    ∙ get-repeat_spans padding (start + x.query_len) k j i' (y ∷ ss) s rest e lt (omega arith)

pub get-decode_rows :
    (padding real t i : ℕ) (ss : List Span) (s : Span)
    → get_elem? ss i ≡ some s
    → get_elem? (decode_rows padding real t ss) i ≡ some (decode_row padding real (t + i) s)
unfolding decode_rows
get-decode_rows padding real t i [] s e = cc
get-decode_rows padding real t zero (x ∷ ss) s e =
    ap (λ o. some o) (ap (decode_row padding real t) (some_injective e))
    ∙ ap (λ n. some (decode_row padding real n s)) (omega arith)
get-decode_rows padding real t (suc i) (x ∷ ss) s e =
    get-decode_rows padding real (suc t) i ss s e
    ∙ ap (λ n. some (decode_row padding real n s)) (omega arith)
