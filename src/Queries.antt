-- ===== src/Queries.antt =====
-- The requests of a batch by the locations of their queries, which fork_patches/flash_attn_v100.py and
-- fork_patches/gdn_attn.py read in the same way: tokens query_start_loc[i] and on are those of request
-- i.
use v100_skinny_unify.Prelude.{ℕ, zero, suc, ◌+◌, ◌-◌, ◌≤◌, ◌<◌, ◌≡◌, some, List, [], ◌∷◌, arith}
use v100_skinny_unify.Prelude.Options.{some_injective}
use v100_skinny_unify.Prelude.Lists.{length, get_elem?, take}

-- query_start_loc[1:] - query_start_loc[:-1]; where the locations fall a length is 0 here, and the
-- requests of length 0 and below are treated alike.
unfoldable pub query_lens : List ℕ → List ℕ
query_lens [] = []
query_lens (a ∷ []) = []
query_lens (a ∷ b ∷ rest) = (b - a) ∷ query_lens (b ∷ rest)

abbrev pub IsMonotone : List ℕ → Type 0
IsMonotone [] = Unit {0}
IsMonotone (a ∷ []) = Unit {0}
IsMonotone (a ∷ b ∷ locs) = (a ≤ b) × IsMonotone (b ∷ locs)

abbrev pub last_or : ℕ → List ℕ → ℕ
last_or a [] = a
last_or a (b ∷ locs) = last_or b locs

unfoldable pub total : List ℕ → ℕ
total [] = 0
total (n ∷ ns) = n + total ns

-- A location is the sum of the lengths before it.
pub location-total :
    (a i loc : ℕ) (rest : List ℕ)
    → IsMonotone (a ∷ rest)
    → i < length (query_lens (a ∷ rest))
    → get_elem? (a ∷ rest) i ≡ some loc
    → loc ≡ a + total (take i (query_lens (a ∷ rest)))
unfolding query_lens total
location-total a zero loc rest h lt e = omega (arith, some_injective e)
location-total a (suc i) loc [] h lt e = absurd (omega arith)
location-total a (suc i) loc (b ∷ rest) (le, h) lt e =
    omega (arith, location-total b i loc rest h (omega arith) e)
