-- ===== src/Flash/Tree/Visible.antt =====
-- What a token of the tree of drafts attends to.
use v100_skinny_unify.Prelude.{
  if_false, positive, ℕ, ◌+◌, min, Bool-cases, ◌==◌, ◌||◌, ltb, ◌<◌, ◌≤◌, ◌≡◌, refl, sym, ap, ◌∙◌,
  ◌↔◌, ◌⊎◌, inl, inr, true, Option, none, some, List, arith,
}
use v100_skinny_unify.Prelude.Int.{ℤ, pos, negsuc}
use v100_skinny_unify.Flash.Tree.{
  blank, show, show_until, Query, causal_row, branch_row, tree_row, visibility_mask, left_ok,
  right_ok,
}
use v100_skinny_unify.Flash.Tree.Ancestors.{IsAncestor, parent, above, IsTree, walk_iff}

-- Within the window around a query position; a negative side has no bound.
abbrev pub AfterLeft : ℤ → ℕ → ℕ → Type 0
AfterLeft (pos n) q_pos k = q_pos ≤ k + n
AfterLeft (negsuc n) q_pos k = Unit {0}

abbrev pub BeforeRight : ℤ → ℕ → ℕ → Type 0
BeforeRight (pos n) q_pos k = k ≤ q_pos + n
BeforeRight (negsuc n) q_pos k = Unit {0}

left_iff : (z : ℤ) (q_pos k : ℕ) → (left_ok z q_pos k ≡ true) ↔ AfterLeft z q_pos k
left_iff (pos n) q_pos k = ground arith
left_iff (negsuc n) q_pos k = ground arith

right_iff : (z : ℤ) (q_pos k : ℕ) → (right_ok z q_pos k ≡ true) ↔ BeforeRight z q_pos k
right_iff (pos n) q_pos k = ground arith
right_iff (negsuc n) q_pos k = ground arith

-- Inside the matrix and the window.
pub record IsNear (c : Query) (q k : ℕ) : Type 0 where
  pub key : k < c.seq_len
  pub left : AfterLeft c.left (c.prefix_len + q) k
  pub right : BeforeRight c.right (c.prefix_len + q) k

pub mask_iff :
    (c : Query) (q k : ℕ)
    → q < c.q_len
    → (visibility_mask c q k ≡ true) ↔ (IsNear c q k × (tree_row c q c.parent_row k ≡ true))
unfolding visibility_mask
mask_iff c q k inside =
    ground (arith, left_iff c.left (c.prefix_len + q) k, right_iff c.right (c.prefix_len + q) k)

-- A token of the tree attends to the prefix, the root, itself and its ancestors.
abbrev pub Attends : Query → List ℤ → ℕ → ℕ → Type 0
Attends c parents q k =
    (k ≤ c.prefix_len)
    ⊎ (k ≡ c.prefix_len + q)
    ⊎ (b : ℕ) × IsAncestor parents q b × (k ≡ c.prefix_len + b)

base_iff :
    (c : Query) (q k : ℕ)
    → k < c.seq_len
    → (show c.seq_len
          (c.prefix_len + q)
          (show c.seq_len c.prefix_len (show_until (min c.prefix_len c.seq_len) blank))
          k
        ≡ true)
      ↔ ((k ≤ c.prefix_len) ⊎ (k ≡ c.prefix_len + q))
unfolding show show_until
base_iff c q k key = ground arith

pub branch_iff :
    (c : Query) (parents : List ℤ) (q k : ℕ)
    → IsTree parents
    → 0 < q
    → k < c.seq_len
    → (branch_row c parents q k ≡ true) ↔ Attends c parents q k
unfolding branch_row
branch_iff c parents q k tree below_root key =
    let loop = walk_iff parents c.prefix_len c.seq_len q k _ tree below_root in
    let base = base_iff c q k key in
    (
      λ m. elim (loop.0 m) [
        | inl old ↦ elim (base.0 old) [ inl a ↦ inl a | inr b ↦ inr (inl b) ]
        | inr (_, b, chain, at) ↦ inr (inr (b, chain, at))
      ],
      λ m. elim m [
        | inl a ↦ loop.1 (inl (base.1 (inl a)))
        | inr (inl b) ↦ loop.1 (inl (base.1 (inr b)))
        | inr (inr (b, chain, at)) ↦ loop.1 (inr (key, b, chain, at))
      ],
    )

in_tree :
    (c : Query) (parents : List ℤ) (q : ℕ)
    → c.parent_row ≡ some parents
    → 0 < q
    → q ≤ c.tree_len
    → tree_row c q c.parent_row ≡ branch_row c parents q
unfolding tree_row
in_tree c parents q row below_root inside =
    ap (tree_row c q) row
    ∙ if_false (q == 0 || c.tree_len == 0 || ltb c.tree_len q) (causal_row c q)
        (branch_row c parents q) (ground arith)

-- The mask of a token of the tree, other than the root, marks within the window exactly the prefix,
-- the root, the token and its ancestors: if every parent stands before its children.
pub mask-Attends :
    (c : Query) (parents : List ℤ) (q k : ℕ)
    → c.parent_row ≡ some parents
    → IsTree parents
    → 0 < q
    → q ≤ c.tree_len
    → q < c.q_len
    → (visibility_mask c q k ≡ true) ↔ (IsNear c q k × Attends c parents q k)
mask-Attends c parents q k row tree below_root in_range inside =
    let mask = mask_iff c q k inside in
    let same = ap (λ r. r k) (in_tree c parents q row below_root in_range) in
    (
      λ m.
          let (near, marked) = mask.0 m in
          (near, (branch_iff c parents q k tree below_root near.key).0 (sym same ∙ marked)),
      λ (near, attends).
          mask.1 (near, same ∙ (branch_iff c parents q k tree below_root near.key).1 attends),
    )

IsAncestor-lt :
    (parents : List ℤ) {a b : ℕ} → IsTree parents → 0 < a → IsAncestor parents a b → b < a
IsAncestor-lt parents tree below_root (parent {a} {p} e) = tree a p below_root e
IsAncestor-lt parents tree below_root (above {a} {p} {b} e inner rest) =
    let lower = tree a p below_root e in
    let rest_lower : b < p = IsAncestor-lt parents tree (positive p inner) rest in omega arith

pub causal_iff :
    (c : Query) (q k : ℕ) → k < c.seq_len → (causal_row c q k ≡ true) ↔ (k ≤ c.prefix_len + q)
unfolding causal_row show_until
causal_iff c q k key = ground arith

-- The row is the causal one, or that of a token inside the tree.
abbrev pub Branches : Query → ℕ → Option (List ℤ) → Type 0
Branches c q o =
    (parents : List ℤ) × (o ≡ some parents)
    × (0 < q)
    × (q ≤ c.tree_len)
    × (tree_row c q o ≡ branch_row c parents q)

pub tree_row-cases :
    (c : Query) (q : ℕ) (o : Option (List ℤ)) → (tree_row c q o ≡ causal_row c q) ⊎ Branches c q o
unfolding tree_row
tree_row-cases c q none = inl refl
tree_row-cases c q (some parents) =
    elim (Bool-cases (q == 0 || c.tree_len == 0 || ltb c.tree_len q)) [
      | inl outside ↦ inl (rw outside refl)
      | inr inside ↦ inr (
        parents,
        refl,
        ground arith,
        ground arith,
        if_false _ (causal_row c q) (branch_row c parents q) inside,
      )
    ]

Attends-le :
    (c : Query) (parents : List ℤ) (q k : ℕ)
    → IsTree parents
    → 0 < q
    → Attends c parents q k
    → k ≤ c.prefix_len + q
Attends-le c parents q k tree below_root (inl before) = omega arith
Attends-le c parents q k tree below_root (inr (inl at)) = omega arith
Attends-le c parents q k tree below_root (inr (inr (b, chain, at))) =
    let lower : b < q = IsAncestor-lt parents tree below_root chain in omega arith

-- No token attends to a later one: every key that the mask shows stands at or before the query, for
-- a row of parents that stand before their children or for none.
pub mask-IsCausal :
    (c : Query) (q k : ℕ)
    → ((parents : List ℤ) → c.parent_row ≡ some parents → IsTree parents)
    → q < c.q_len
    → visibility_mask c q k ≡ true
    → k ≤ c.prefix_len + q
mask-IsCausal c q k tree inside m =
    let (near, marked) = (mask_iff c q k inside).0 m in
    elim (tree_row-cases c q c.parent_row) [
      | inl plain ↦ (causal_iff c q k near.key).0 (sym (ap (λ r. r k) plain) ∙ marked)
      | inr (parents, row, below_root, _, same) ↦
          let ordered = tree parents row in
          Attends-le c parents q k ordered below_root (
            (branch_iff c parents q k ordered below_root near.key).0
              (sym (ap (λ r. r k) same) ∙ marked))
    ]
