-- ===== src/Flash/Tree/Ancestors.antt =====
-- The ancestors of a slot of the tree, and the loop that marks them.
use v100_skinny_unify.Prelude.{
  if_false, zero-cases, ℕ, zero, suc, ◌+◌, ◌<◌, ◌≡◌, ◌≢◌, refl, sym, ap, ◌∙◌, ◌↔◌, ◌⊎◌, inl, inr,
  true, none, some, List, ◌==◌, arith,
}
use mathlib.Core.Path.{subst}
use v100_skinny_unify.Prelude.Options.{Option-cases, some_injective}
use v100_skinny_unify.Prelude.Lists.{get-cases, length, get_elem?}
use v100_skinny_unify.Prelude.Int.{ℤ, clamp_ℤ}
use v100_skinny_unify.Flash.Tree.{Row, show, walk}

abbrev pub IsParent : List ℤ → ℕ → ℕ → Type 0
IsParent parents a p = (z : ℤ) × (get_elem? parents a ≡ some z) × (clamp_ℤ z ≡ p)

-- The slots above a slot; the root, slot 0, has none.
pub data IsAncestor (parents : List ℤ) : ℕ → ℕ → Type 0 where
  parent : {a p : ℕ} → IsParent parents a p → IsAncestor parents a p
  above :
      {a p b : ℕ} → IsParent parents a p → p ≢ 0 → IsAncestor parents p b → IsAncestor parents a b

-- Every parent stands before its children.
abbrev pub IsTree : List ℤ → Type 0
IsTree parents = (a p : ℕ) → 0 < a → IsParent parents a p → p < a

IsAncestor-cases :
    (parents : List ℤ) {a b : ℕ}
    → IsAncestor parents a b
    → (p : ℕ) × IsParent parents a p × ((b ≡ p) ⊎ ((p ≢ 0) × IsAncestor parents p b))
IsAncestor-cases parents (parent {a} {p} e) = (p, e, inl refl)
IsAncestor-cases parents (above {a} {p} {b} e nonzero rest) = (p, e, inr (nonzero, rest))

module _ (parents : List ℤ) (prefix_len seq_len : ℕ) where
  -- A key position is that of an ancestor.
  abbrev pub Above : ℕ → ℕ → Type 0
  Above a k = (k < seq_len) × (b : ℕ) × IsAncestor parents a b × (k ≡ prefix_len + b)

  Above-none : (a k : ℕ) → get_elem? parents a ≡ none → Above a k → ⊥
  Above-none a k e (lt, b, chain, at) =
      let (p, (z, found, q), rest) = IsAncestor-cases parents chain in cc

  -- One step up: the parent, or an ancestor of a parent that is not the root.
  Above-up :
      (a k : ℕ) (z : ℤ)
      → get_elem? parents a ≡ some z
      → Above a k
      → ((k < seq_len) × (k ≡ prefix_len + clamp_ℤ z)) ⊎ ((clamp_ℤ z ≢ 0) × Above (clamp_ℤ z) k)
  Above-up a k z e (lt, b, chain, at) =
      let (p, (z', found, q), rest) = IsAncestor-cases parents chain in
      let same : p ≡ clamp_ℤ z = sym q ∙ ap clamp_ℤ (some_injective (sym found ∙ e)) in
      elim (subst (λ t. (b ≡ t) ⊎ ((t ≢ 0) × IsAncestor parents t b)) same rest) [
        | inl here ↦ inl (lt, at ∙ ap (λ t. prefix_len + t) here)
        | inr (nonzero, higher) ↦ inr (nonzero, (lt, b, higher, at))
      ]

  Above-down :
      (a k : ℕ) (z : ℤ)
      → get_elem? parents a ≡ some z
      → ((k < seq_len) × (k ≡ prefix_len + clamp_ℤ z)) ⊎ ((clamp_ℤ z ≢ 0) × Above (clamp_ℤ z) k)
      → Above a k
  Above-down a k z e (inl (lt, at)) = (lt, clamp_ℤ z, parent (z, e, refl), at)
  Above-down a k z e (inr (nonzero, (lt, b, chain, at))) =
      (lt, b, above (z, e, refl) nonzero chain, at)

  show_iff :
      (at k : ℕ) (row : Row)
      → (show seq_len at row k ≡ true) ↔ (((k < seq_len) × (k ≡ at)) ⊎ (row k ≡ true))
  unfolding show
  show_iff at k row = ground arith

  walk-none :
      (rounds a : ℕ) (row : Row)
      → get_elem? parents a ≡ none
      → walk parents prefix_len seq_len rounds a row ≡ row
  unfolding walk
  walk-none zero a row e = refl
  walk-none (suc rounds) a row e = rw (e, walk) refl

  walk-root :
      (rounds a : ℕ) (row : Row) (z : ℤ)
      → get_elem? parents a ≡ some z
      → clamp_ℤ z ≡ 0
      → walk parents prefix_len seq_len (suc rounds) a row
        ≡ show seq_len (prefix_len + clamp_ℤ z) row
  unfolding walk
  walk-root rounds a row z e root = rw (e, walk) (ground arith)

  walk-up :
      (rounds a : ℕ) (row : Row) (z : ℤ)
      → get_elem? parents a ≡ some z
      → clamp_ℤ z ≢ 0
      → walk parents prefix_len seq_len (suc rounds) a row
        ≡ walk parents prefix_len seq_len rounds
            (clamp_ℤ z)
            (show seq_len (prefix_len + clamp_ℤ z) row)
  unfolding walk
  walk-up rounds a row z e inner = rw (e, walk) (if_false (clamp_ℤ z == 0) _ _ (ground arith))

  -- The loop stopped at a slot out of range, at a parent that is the root, or went up.
  Marks : ℕ → Row → Row → ℕ → Type 0
  Marks a row row' k = (row' k ≡ true) ↔ ((row k ≡ true) ⊎ Above a k)

  Marks-none : (a k : ℕ) (row : Row) → get_elem? parents a ≡ none → Marks a row row k
  unfolding Marks
  Marks-none a k row absent =
      (inl, λ m. elim m [ inl old ↦ old | inr chain ↦ absurd (Above-none a k absent chain) ])

  Marks-root :
      (a k : ℕ) (row : Row) (z : ℤ)
      → get_elem? parents a ≡ some z
      → clamp_ℤ z ≡ 0
      → Marks a row (show seq_len (prefix_len + clamp_ℤ z) row) k
  unfolding Marks
  Marks-root a k row z e root =
      let step = show_iff (prefix_len + clamp_ℤ z) k row in
      (
        λ m. elim (step.0 m) [ inl here ↦ inr (Above-down a k z e (inl here)) | inr old ↦ inl old ],
        λ m. elim m [
          | inl old ↦ step.1 (inr old)
          | inr chain ↦ elim (Above-up a k z e chain) [
            | inl here ↦ step.1 (inl here)
            | inr (inner, higher) ↦ absurd (inner root)
          ]
        ],
      )

  Marks-up :
      (a k : ℕ) (row row' : Row) (z : ℤ)
      → get_elem? parents a ≡ some z
      → clamp_ℤ z ≢ 0
      → Marks (clamp_ℤ z) (show seq_len (prefix_len + clamp_ℤ z) row) row' k
      → Marks a row row' k
  unfolding Marks
  Marks-up a k row row' z e inner ih =
      let step = show_iff (prefix_len + clamp_ℤ z) k row in
      (
        λ m. elim (ih.0 m) [
          | inl shown ↦ elim (step.0 shown) [
            | inl here ↦ inr (Above-down a k z e (inl here))
            | inr old ↦ inl old
          ]
          | inr higher ↦ inr (Above-down a k z e (inr (inner, higher)))
        ],
        λ m. elim m [
          | inl old ↦ ih.1 (inl (step.1 (inr old)))
          | inr chain ↦ elim (Above-up a k z e chain) [
            | inl here ↦ ih.1 (inl (step.1 (inl here)))
            | inr (_, higher) ↦ ih.1 (inr higher)
          ]
        ],
      )

  walk-Marks :
      (rounds a k : ℕ) (row : Row)
      → IsTree parents
      → 0 < a
      → a < rounds
      → Marks a row (walk parents prefix_len seq_len rounds a row) k
  walk-Marks zero a k row tree below_root enough = absurd (omega arith)
  walk-Marks (suc rounds) a k row tree below_root enough =
      elim (Option-cases (get_elem? parents a)) [
        | inl absent ↦
            subst (λ r. Marks a row r k) (sym (walk-none (suc rounds) a row absent))
              (Marks-none a k row absent)
        | inr (z, e) ↦ elim (zero-cases (clamp_ℤ z)) [
          | inl root ↦
              subst (λ r. Marks a row r k) (sym (walk-root rounds a row z e root))
                (Marks-root a k row z e root)
          | inr inner ↦
              let higher = tree a (clamp_ℤ z) below_root (z, e, refl) in
              subst (λ r. Marks a row r k) (sym (walk-up rounds a row z e inner))
                (Marks-up a k row _ z e inner (
                  walk-Marks rounds (clamp_ℤ z) k (show seq_len (prefix_len + clamp_ℤ z) row) tree
                    (omega arith) (omega arith)))
        ]
      ]

  -- The loop marks the ancestors, and nothing else: the parents decrease, so that it ends at the
  -- root before its rounds are over.
  pub walk_iff :
      (a k : ℕ) (row : Row)
      → IsTree parents
      → 0 < a
      → (walk parents prefix_len seq_len (length parents) a row k ≡ true)
        ↔ ((row k ≡ true) ⊎ Above a k)
  unfolding Marks
  walk_iff a k row tree below_root = elim (get-cases parents a) [
    | inl inside ↦ walk-Marks (length parents) a k row tree below_root inside
    | inr absent ↦
        subst (λ r. Marks a row r k) (sym (walk-none (length parents) a row absent))
          (Marks-none a k row absent)
  ]
