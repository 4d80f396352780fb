-- ===== src/Flash/Live.antt =====
-- `_normalize_query_start_loc_for_available_tokens` of fork_patches/flash_attn_v100.py: the locations of
-- the queries of a batch where a layer is given fewer tokens than they describe. `none` is the
-- RuntimeError.
pub mod Laws
use v100_skinny_unify.Prelude.{
  ℕ, zero, suc, ◌+◌, ◌*◌, ◌/◌, ◌%◌, min, Bool, true, Option, none, some, List, [], ◌∷◌, map, leb,
  ◌==◌, ◌&&◌, if◌then◌else◌,
}
use v100_skinny_unify.Prelude.Lists.{length}
use v100_skinny_unify.Queries.{query_lens, last_or}

-- arange(start, …, step), of n + 1 elements
unfoldable pub ramp : ℕ → ℕ → ℕ → List ℕ
ramp step start zero = start ∷ []
ramp step start (suc n) = start ∷ ramp step (start + step) n

-- xs.min() >= n
unfoldable pub all_at_least : ℕ → List ℕ → Bool
all_at_least n [] = true
all_at_least n (x ∷ xs) = leb n x && all_at_least n xs

-- Fewer tokens than described, for more than one request.
unfoldable pub live_query_start_loc : List ℕ → ℕ → ℕ → Option (List ℕ)
unfolding ramp all_at_least query_lens
live_query_start_loc locs num_seqs available =
    if available == num_seqs
    then some (ramp 1 0 num_seqs)
    else if available % num_seqs == 0 && all_at_least (available / num_seqs) (query_lens locs)
    then some (ramp (available / num_seqs) 0 num_seqs)
    else none

unfoldable pub normalize_query_start_loc : List ℕ → ℕ → Option (List ℕ)
unfolding live_query_start_loc
normalize_query_start_loc [] available = some []
normalize_query_start_loc (a ∷ []) available = some (a ∷ [])
normalize_query_start_loc (a ∷ b ∷ rest) available =
    let locs = a ∷ b ∷ rest in
    let num_seqs = length (b ∷ rest) in
    if leb (last_or a (b ∷ rest)) available
    then some locs
    else if available == 0
    then some (map (λ _. 0) locs)
    else if num_seqs == 1
    then some (0 ∷ available ∷ [])
    else live_query_start_loc locs num_seqs available
