-- ===== src/Flash/Tree/Parents.antt =====
-- `_ddtree_triton_parent_ids_for_query` of fork_patches/flash_attn_v100.py: the rows of parents that
-- the branch kernel is given, or none where the dense verifier has to do. The rows are those of a
-- matrix of `width` columns.
pub mod Laws
use v100_skinny_unify.Prelude.{
  ℕ, zero, suc, ◌+◌, ◌-◌, Bool, true, false, Option, none, some, List, [], ◌∷◌, ltb, ◌==◌,
  if◌then◌else◌, ◌||◌,
}
use v100_skinny_unify.Prelude.Options.{◌>>=◌}
use v100_skinny_unify.Prelude.Int.{ℤ, pos}
use v100_skinny_unify.Queries.{query_lens}

pub data Verdict : Type 0 where
  skip refuse causal keep : Verdict

-- The body of the loop over the requests.
unfoldable pub verdict : ℕ → ℕ → ℕ → Verdict
verdict width q_len tree_len =
    if q_len == 0
    then skip
    else if ltb width q_len
    then refuse
    else if tree_len == 0
    then causal
    else if ltb (tree_len + 1) q_len
    then refuse
    else keep

abbrev pub mark_of : Verdict → Option Bool
mark_of skip = some false
mark_of refuse = none
mark_of causal = some true
mark_of keep = some false

-- rows_needing_causal_parent, as one mark for each request that all three tensors have.
unfoldable pub causal_marks : ℕ → List ℕ → List ℕ → List (List ℤ) → Option (List Bool)
unfolding verdict
causal_marks width (q_len ∷ q_lens) (tree_len ∷ tree_lens) (row ∷ rows) =
    mark_of (verdict width q_len tree_len) >>= λ mark.
    causal_marks width q_lens tree_lens rows >>= λ marks. some (mark ∷ marks)
causal_marks width _ _ _ = some []

-- clamp(arange(n) - 1, min=0), from index i on
unfoldable pub chain_from : ℕ → ℕ → List ℤ
chain_from i zero = []
chain_from i (suc n) = pos (i - 1) ∷ chain_from (i + 1) n

-- triton_parent_ids[rows_needing_causal_parent, :] = causal_parent_row
unfoldable pub with_causal : List ℤ → List Bool → List (List ℤ) → List (List ℤ)
with_causal chain (true ∷ marks) (row ∷ rows) = chain ∷ with_causal chain marks rows
with_causal chain (false ∷ marks) (row ∷ rows) = row ∷ with_causal chain marks rows
with_causal chain _ rows = rows

unfoldable pub any : List Bool → Bool
any [] = false
any (b ∷ bs) = b || any bs

unfoldable pub parent_ids_for_query :
    ℕ → List (List ℤ) → Option (List ℕ) → List ℕ → Bool → Option (List (List ℤ))
unfolding causal_marks with_causal any
parent_ids_for_query width rows none query_start_loc is_capturing = some rows
parent_ids_for_query width rows (some tree_lens) query_start_loc is_capturing =
    if width == 0
    then some rows
    else causal_marks width (query_lens query_start_loc) tree_lens rows >>= λ marks.
        if any marks
        then (if is_capturing then none else some (with_causal (chain_from 0 width) marks rows))
        else some rows
