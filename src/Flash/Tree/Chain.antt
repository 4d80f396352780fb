-- ===== src/Flash/Tree/Chain.antt =====
-- A chain of drafts, where the parent of each slot is the one before it.
use v100_skinny_unify.Prelude.{
  lt-cases, ℕ, zero, suc, ◌+◌, ◌-◌, leb, Bool-cases, ◌<◌, ◌≤◌, ◌≡◌, refl, sym, ap, ◌∙◌, ◌↔◌, inl,
  inr, true, some, List, arith,
}
use mathlib.Core.Path.{subst}
use v100_skinny_unify.Prelude.Options.{some_injective}
use v100_skinny_unify.Prelude.Lists.{get-some, length}
use v100_skinny_unify.Prelude.Int.{ℤ, negsuc, clamp_ℤ}
use v100_skinny_unify.Flash.Tree.{Query, visibility_mask}
use v100_skinny_unify.Flash.Tree.Ancestors.{IsParent, IsAncestor, parent, above, IsTree}
use v100_skinny_unify.Flash.Tree.Visible.{
  AfterLeft, BeforeRight, Attends, mask_iff, branch_iff, causal_iff, tree_row-cases, mask-IsCausal,
}

-- A chain: the parent of each slot but the root is the slot before it.
abbrev pub IsChain : List ℤ → Type 0
IsChain parents = (a p : ℕ) → IsParent parents (suc a) p → p ≡ a

IsChain-IsTree : (parents : List ℤ) → IsChain parents → IsTree parents
IsChain-IsTree parents chain zero p below_root e = absurd (omega arith)
IsChain-IsTree parents chain (suc a) p below_root e = omega (arith, chain a p e)

-- In a chain the ancestors of a slot are all the slots before it.
IsChain-IsAncestor :
    (parents : List ℤ)
    → IsChain parents
    → (a b : ℕ) → a < length parents
    → b < a
    → IsAncestor parents a b
IsChain-IsAncestor parents chain zero b inside lt = absurd (omega arith)
IsChain-IsAncestor parents chain (suc a) b inside lt =
    let (z, e) = get-some parents (suc a) inside in
    let up : IsParent parents (suc a) a = (z, e, chain a (clamp_ℤ z) (z, e, refl)) in
    elim (lt-cases b a (omega arith)) [
      | inl same ↦ subst (IsAncestor parents (suc a)) (sym same) (parent up)
      | inr lower ↦
          above up (λ e. absurd (omega arith))
            (IsChain-IsAncestor parents chain a b (omega arith) lower)
    ]

chain-Attends :
    (c : Query) (parents : List ℤ) (q k : ℕ)
    → IsChain parents
    → q < length parents
    → k ≤ c.prefix_len + q
    → Attends c parents q k
chain-Attends c parents q k chain inside le = elim (lt-cases k (c.prefix_len + q) le) [
  | inl at ↦ inr (inl at)
  | inr lower ↦ elim (Bool-cases (leb k c.prefix_len)) [
    | inl before ↦ inl (ground arith)
    | inr after ↦ inr (
        inr (
          k - c.prefix_len,
          IsChain-IsAncestor parents chain q (k - c.prefix_len) inside (ground arith),
          ground arith,
        ))
  ]
]

-- For a chain of drafts without window the mask is the causal one.
pub mask-chain :
    (c : Query) (parents : List ℤ) (q k : ℕ)
    → c.parent_row ≡ some parents
    → IsChain parents
    → c.q_len ≤ length parents
    → c.left ≡ negsuc 0
    → c.right ≡ negsuc 0
    → q < c.q_len
    → k < c.seq_len
    → (visibility_mask c q k ≡ true) ↔ (k ≤ c.prefix_len + q)
mask-chain c parents q k row chain covered left right inside key =
    let tree = IsChain-IsTree parents chain in
    (
      mask-IsCausal c q k (λ p e. subst IsTree (some_injective (sym row ∙ e)) tree) inside,
      λ le. (mask_iff c q k inside).1 (
        record {
          key = key;
          left = subst (λ z. AfterLeft z (c.prefix_len + q) k) (sym left) tt;
          right = subst (λ z. BeforeRight z (c.prefix_len + q) k) (sym right) tt;
        },
        elim (tree_row-cases c q c.parent_row) [
          | inl plain ↦ ap (λ r. r k) plain ∙ (causal_iff c q k key).1 le
          | inr (parents', row', below_root, _, same) ↦
              let e = some_injective (sym row ∙ row') in
              ap (λ r. r k) same
              ∙ (branch_iff c parents' q k (subst IsTree e tree) below_root key).1 (
                  subst (λ p. Attends c p q k) e
                    (chain-Attends c parents q k chain (omega arith) le))
        ],
      ),
    )
