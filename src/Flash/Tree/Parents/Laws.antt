-- ===== src/Flash/Tree/Parents/Laws.antt =====
-- What the branch kernel can rely on in the rows of parents that it is given.
use v100_skinny_unify.Prelude.{
  ap₂, if_false, if◌then◌else◌, ◌==◌, ℕ, zero, suc, ◌+◌, ◌-◌, ◌<◌, ◌≤◌, ◌≡◌, refl, sym, ap, ◌∙◌,
  ◌⊎◌, inl, inr, Bool, true, false, Option, none, some, List, [], ◌∷◌, arith,
}
use mathlib.Core.Path.{subst}
use v100_skinny_unify.Prelude.Options.{some_injective, >>=-first}
use v100_skinny_unify.Prelude.Lists.{get_elem?}
use v100_skinny_unify.Prelude.Int.{ℤ, pos, clamp_ℤ}
use v100_skinny_unify.Queries.{query_lens}
use v100_skinny_unify.Flash.Tree.Chain.{IsChain}
use v100_skinny_unify.Flash.Tree.Parents.{
  verdict, mark_of, causal_marks, chain_from, with_causal, any, parent_ids_for_query,
}

-- The row of a request with tokens: a chain where it has no tree, and else its own, whose tree has
-- a slot for each of its tokens.
abbrev pub Suits : ℕ → ℕ → ℕ → List ℤ → Option (List ℤ) → Type 0
Suits width q_len tree_len row given =
    (q_len ≤ width)
    × (((tree_len ≡ 0) × (given ≡ some (chain_from 0 width)))
        ⊎ ((q_len ≤ tree_len + 1) × (given ≡ some row)))

mark_cases :
    (width q_len tree_len : ℕ) (mark : Bool)
    → mark_of (verdict width q_len tree_len) ≡ some mark
    → 0 < q_len
    → (q_len ≤ width)
      × (((tree_len ≡ 0) × (mark ≡ true)) ⊎ ((q_len ≤ tree_len + 1) × (mark ≡ false)))
unfolding verdict
mark_cases width q_len tree_len mark e some_token = ground arith

at_head :
    (chain row : List ℤ) (marks : List Bool) (rows : List (List ℤ)) (mark : Bool)
    → ((mark ≡ true) → get_elem? (with_causal chain (mark ∷ marks) (row ∷ rows)) 0 ≡ some chain)
      × ((mark ≡ false) → get_elem? (with_causal chain (mark ∷ marks) (row ∷ rows)) 0 ≡ some row)
unfolding with_causal
at_head chain row marks rows true = (λ e. refl, λ e. cc)
at_head chain row marks rows false = (λ e. cc, λ e. refl)

in_tail :
    (chain row : List ℤ) (marks : List Bool) (rows : List (List ℤ)) (mark : Bool) (i : ℕ)
    → get_elem? (with_causal chain (mark ∷ marks) (row ∷ rows)) (suc i)
      ≡ get_elem? (with_causal chain marks rows) i
unfolding with_causal
in_tail chain row marks rows true i = refl
in_tail chain row marks rows false i = refl

-- The marks of the first request and of the others.
marks-first :
    (width q t : ℕ) (qs ts : List ℕ) (row : List ℤ) (rows : List (List ℤ)) (marks : List Bool)
    → causal_marks width (q ∷ qs) (t ∷ ts) (row ∷ rows) ≡ some marks
    → (mark : Bool) × (rest : List Bool) × (mark_of (verdict width q t) ≡ some mark)
      × (causal_marks width qs ts rows ≡ some rest)
      × (marks ≡ mark ∷ rest)
unfolding causal_marks
marks-first width q t qs ts row rows marks e =
    let (mark, first, next) = >>=-first (mark_of (verdict width q t)) _ e in
    let (rest, others, last) = >>=-first (causal_marks width qs ts rows) _ next in
    (mark, rest, first, others, sym (some_injective last))

marks-Suits :
    (width i q_len tree_len : ℕ) (row : List ℤ) (q_lens tree_lens : List ℕ) (rows : List (List ℤ))
    (marks : List Bool)
    → causal_marks width q_lens tree_lens rows ≡ some marks
    → get_elem? q_lens i ≡ some q_len
    → get_elem? tree_lens i ≡ some tree_len
    → get_elem? rows i ≡ some row
    → 0 < q_len
    → Suits width q_len tree_len row (get_elem? (with_causal (chain_from 0 width) marks rows) i)
unfolding causal_marks
marks-Suits width zero q_len tree_len row (q ∷ qs) (t ∷ ts) (r ∷ rows) marks e eq et er some_token =
    let (mark, rest, first, others, all) = marks-first width q t qs ts r rows marks e in
    let same_q : q ≡ q_len = some_injective eq in
    let same_t : t ≡ tree_len = some_injective et in
    let (fits, which) =
      mark_cases width q_len tree_len mark
        (ap₂ (λ a b. mark_of (verdict width a b)) (sym same_q) (sym same_t) ∙ first) some_token in
    let (to_chain, to_row) = at_head (chain_from 0 width) r rest rows mark in
    subst
      (λ l.
        Suits width q_len tree_len row
          (get_elem? (with_causal (chain_from 0 width) l (r ∷ rows)) 0))
      (sym all)
      (
        fits,
        elim which [
          | inl (no_tree, marked) ↦ inl (no_tree, to_chain marked)
          | inr (covered, unmarked) ↦ inr (covered, to_row unmarked ∙ er)
        ],
      )
marks-Suits width (suc i) q_len tree_len row (q ∷ qs) (t ∷ ts) (r ∷ rows) marks e eq et er
      some_token =
    let (mark, rest, first, others, all) = marks-first width q t qs ts r rows marks e in
    subst
      (λ l.
        Suits width q_len tree_len row
          (get_elem? (with_causal (chain_from 0 width) l (r ∷ rows)) (suc i)))
      (sym all)
      (subst (Suits width q_len tree_len row)
        (sym (in_tail (chain_from 0 width) r rest rows mark i))
        (marks-Suits width i q_len tree_len row qs ts rows rest others eq et er some_token))
marks-Suits width i q_len tree_len row [] ts rows marks e eq et er some_token = cc
marks-Suits width i q_len tree_len row (q ∷ qs) [] rows marks e eq et er some_token = cc
marks-Suits width i q_len tree_len row (q ∷ qs) (t ∷ ts) [] marks e eq et er some_token = cc

-- Without a mark the rows stay as they are.
with_causal-unmarked :
    (chain : List ℤ) (marks : List Bool) (rows : List (List ℤ))
    → any marks ≡ false
    → with_causal chain marks rows ≡ rows
unfolding with_causal any
with_causal-unmarked chain [] rows h = refl
with_causal-unmarked chain (true ∷ marks) rows h = cc
with_causal-unmarked chain (false ∷ marks) [] h = refl
with_causal-unmarked chain (false ∷ marks) (row ∷ rows) h =
    ap (λ l. row ∷ l) (with_causal-unmarked chain marks rows h)

given_rows :
    (width : ℕ) (rows given : List (List ℤ)) (tree_lens query_start_loc : List ℕ)
    (is_capturing : Bool)
    → parent_ids_for_query width rows (some tree_lens) query_start_loc is_capturing ≡ some given
    → 0 < width
    → (marks : List Bool) × (causal_marks width (query_lens query_start_loc) tree_lens rows
        ≡ some marks)
      × (given ≡ with_causal (chain_from 0 width) marks rows)
unfolding parent_ids_for_query
given_rows width rows given tree_lens query_start_loc is_capturing e wide =
    let (marks, found, next) =
      >>=-first (causal_marks width (query_lens query_start_loc) tree_lens rows) _
        (sym (if_false (width == 0) (some rows) _ (ground arith)) ∙ e) in
    (marks, found, which marks next)
  where
    which :
        (marks : List Bool)
        → (if any marks
            then (if is_capturing then none else some (with_causal (chain_from 0 width) marks rows))
            else some rows)
          ≡ some given
        → given ≡ with_causal (chain_from 0 width) marks rows
    which marks h = ground (arith, with_causal-unmarked (chain_from 0 width) marks rows)

-- The branch kernel is given a row for every request that has tokens and a count of tree slots: the
-- tokens fit the row, and either the request has no tree and the row is a chain, or its tree has a
-- slot for each token and the row is its own.
pub parent_ids-Suits :
    (width i q_len tree_len : ℕ) (row : List ℤ) (rows given : List (List ℤ))
    (tree_lens query_start_loc : List ℕ) (is_capturing : Bool)
    → parent_ids_for_query width rows (some tree_lens) query_start_loc is_capturing ≡ some given
    → 0 < width
    → get_elem? (query_lens query_start_loc) i ≡ some q_len
    → get_elem? tree_lens i ≡ some tree_len
    → get_elem? rows i ≡ some row
    → 0 < q_len
    → Suits width q_len tree_len row (get_elem? given i)
parent_ids-Suits width i q_len tree_len row rows given tree_lens query_start_loc is_capturing e wide
      eq et er some_token =
    let (marks, found, same) =
      given_rows width rows given tree_lens query_start_loc is_capturing e wide in
    subst (λ l. Suits width q_len tree_len row (get_elem? l i)) (sym same)
      (marks-Suits width i q_len tree_len row (query_lens query_start_loc) tree_lens rows marks
        found eq et er some_token)

get-chain_from :
    (start n a : ℕ) (z : ℤ) → get_elem? (chain_from start n) a ≡ some z → z ≡ pos (start + a - 1)
unfolding chain_from
get-chain_from start zero a z e = cc
get-chain_from start (suc n) zero z e = sym (some_injective e) ∙ ap pos (omega arith)
get-chain_from start (suc n) (suc a) z e = get-chain_from (start + 1) n a z e ∙ ap pos (omega arith)

-- The row that a request without a tree is given is a chain.
pub chain_from-IsChain : (width : ℕ) → IsChain (chain_from 0 width)
chain_from-IsChain width a p (z, found, same) =
    sym same ∙ ap clamp_ℤ (get-chain_from 0 width (suc a) z found) ∙ omega arith
