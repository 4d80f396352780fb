-- ===== src/Flash/Tree.antt =====
-- The tree of drafts of fork_patches/flash_attn_v100.py: `_build_ddtree_visibility_mask`, which says
-- what each token of the tree attends to, and `_ddtree_triton_parent_ids_for_query`. The tokens of a
-- request are its prefix and then the slots of the tree, of which slot 0 is the root.
pub mod Ancestors
pub mod Visible
pub mod Chain
pub mod Parents
use v100_skinny_unify.Prelude.{
  ℕ, zero, suc, ◌+◌, min, Bool, true, false, Option, none, some, List, ltb, leb, ◌==◌, ◌&&◌, ◌||◌,
  if◌then◌else◌,
}
use v100_skinny_unify.Prelude.Lists.{length, get_elem?}
use v100_skinny_unify.Prelude.Int.{ℤ, pos, negsuc, clamp_ℤ}

-- A row of the mask, by key position.
abbrev pub Row : Type 0
Row = ℕ → Bool

abbrev pub blank : Row
blank k = false

-- visible[q, :end] = True
unfoldable pub show_until : ℕ → Row → Row
show_until end row k = ltb k end || row k

-- if pos < seq_len: visible[q, pos] = True
unfoldable pub show : ℕ → ℕ → Row → Row
show seq_len at row k = ltb at seq_len && k == at || row k

-- The loop over the ancestors; `max_slots` rounds at most.
unfoldable pub walk : List ℤ → ℕ → ℕ → ℕ → ℕ → Row → Row
unfolding show
walk parents prefix_len seq_len zero ancestor row = row
walk parents prefix_len seq_len (suc rounds) ancestor row = elim (get_elem? parents ancestor) [
  | none ↦ row
  | some z ↦
      let parent = clamp_ℤ z in
      let row' = show seq_len (prefix_len + parent) row in
      if parent == 0 then row' else walk parents prefix_len seq_len rounds parent row'
]

-- What the arguments of a call are.
pub record Query : Type 0 where
  pub q_len : ℕ
  pub seq_len : ℕ
  pub prefix_len : ℕ
  pub tree_len : ℕ
  pub parent_row : Option (List ℤ)
  pub left : ℤ
  pub right : ℤ

unfoldable pub causal_row : Query → ℕ → Row
unfolding show_until
causal_row c q = show_until (min (c.prefix_len + q + 1) c.seq_len) blank

unfoldable pub branch_row : Query → List ℤ → ℕ → Row
unfolding show_until show walk
branch_row c parents q = walk parents c.prefix_len c.seq_len (length parents) q (
    show c.seq_len (c.prefix_len + q)
      (show c.seq_len c.prefix_len (show_until (min c.prefix_len c.seq_len) blank)))

unfoldable pub tree_row : Query → ℕ → Option (List ℤ) → Row
unfolding causal_row branch_row
tree_row c q none = causal_row c q
tree_row c q (some parents) =
    if q == 0 || c.tree_len == 0 || ltb c.tree_len q then causal_row c q else branch_row c parents q

-- k_pos >= q_pos - left, where left is not negative
abbrev pub left_ok : ℤ → ℕ → ℕ → Bool
left_ok (negsuc n) q_pos k = true
left_ok (pos n) q_pos k = leb q_pos (k + n)

-- k_pos <= q_pos + right, where right is not negative
abbrev pub right_ok : ℤ → ℕ → ℕ → Bool
right_ok (negsuc n) q_pos k = true
right_ok (pos n) q_pos k = leb k (q_pos + n)

-- visible[q, k]
unfoldable pub visibility_mask : Query → ℕ → ℕ → Bool
unfolding tree_row
visibility_mask c q k =
    ltb q c.q_len
    && ltb k c.seq_len
    && tree_row c q c.parent_row k
    && left_ok c.left (c.prefix_len + q) k
    && right_ok c.right (c.prefix_len + q) k
