-- ===== src/Flash/Live/Laws.antt =====
-- What the locations for the tokens that are there keep of those that were described.
use v100_skinny_unify.Prelude.{
  ℕ, zero, suc, ◌+◌, ◌*◌, ◌/◌, ◌%◌, ◌≤◌, ◌<◌, ◌≡◌, refl, sym, ap, ◌∙◌, true, some, List, [], ◌∷◌,
  map, leb, ◌==◌, ◌&&◌, ◌⊎◌, inl, inr, arith,
}
use mathlib.Core.Path.{subst}
use native.Mathlib.Nat.{div-add-mod'}
use v100_skinny_unify.Prelude.Options.{some_injective, if_cases}
use v100_skinny_unify.Prelude.Lists.{length, get_elem?}
use v100_skinny_unify.Queries.{query_lens, last_or, IsMonotone}
use v100_skinny_unify.Flash.Live.{
  ramp, all_at_least, live_query_start_loc, normalize_query_start_loc,
}

-- The locations `out` describe `available` tokens, for the requests of `locs`: none has more tokens
-- than it had, if it had one.
pub record IsProjected (locs : List ℕ) (available : ℕ) (out : List ℕ) : Type 0 where
  pub requests : length out ≡ length locs
  pub rises : IsMonotone out
  pub first : ℕ
  pub ends : List ℕ
  pub are : out ≡ first ∷ ends
  pub last : last_or first ends ≡ available
  pub fewer :
      (r n m : ℕ)
      → get_elem? (query_lens locs) r ≡ some n
      → get_elem? (query_lens out) r ≡ some m
      → 0 < n
      → m ≤ n

length-ramp : (step start n : ℕ) → length (ramp step start n) ≡ suc n
unfolding ramp
length-ramp step start zero = refl
length-ramp step start (suc n) = ap suc (length-ramp step (start + step) n)

ramp-IsMonotone : (step start n : ℕ) → IsMonotone (ramp step start n)
unfolding ramp
ramp-IsMonotone step start zero = tt
ramp-IsMonotone step start (suc zero) = (omega arith, tt)
ramp-IsMonotone step start (suc (suc n)) =
    (omega arith, ramp-IsMonotone step (start + step) (suc n))

ramp-last :
    (step start n : ℕ)
    → (ends : List ℕ) × (ramp step start n ≡ start ∷ ends) × (last_or start ends ≡ start + n * step)
unfolding ramp
ramp-last step start zero = ([], refl, omega arith)
ramp-last step start (suc n) =
    let (ends, e, l) = ramp-last step (start + step) n in
    ((start + step) ∷ ends, ap (λ xs. start ∷ xs) e, l ∙ omega arith)

ramp-query :
    (step start n r m : ℕ) → get_elem? (query_lens (ramp step start n)) r ≡ some m → m ≡ step
unfolding ramp query_lens
ramp-query step start zero r m e = cc
ramp-query step start (suc zero) zero m e = omega (arith, some_injective e)
ramp-query step start (suc zero) (suc r) m e = cc
ramp-query step start (suc (suc n)) zero m e = omega (arith, some_injective e)
ramp-query step start (suc (suc n)) (suc r) m e = ramp-query step (start + step) (suc n) r m e

all_at_least-get :
    (k : ℕ) (xs : List ℕ) (r n : ℕ) → all_at_least k xs ≡ true → get_elem? xs r ≡ some n → k ≤ n
unfolding all_at_least
all_at_least-get k [] r n h e = cc
all_at_least-get k (x ∷ xs) zero n h e = ground (arith, some_injective e)
all_at_least-get k (x ∷ xs) (suc r) n h e = all_at_least-get k xs r n (ground arith) e

ramp-IsProjected :
    (locs : List ℕ) (step num_seqs available : ℕ)
    → length locs ≡ suc num_seqs
    → num_seqs * step ≡ available
    → ((r n : ℕ) → get_elem? (query_lens locs) r ≡ some n → 0 < n → step ≤ n)
    → IsProjected locs available (ramp step 0 num_seqs)
ramp-IsProjected locs step num_seqs available many total small =
    let (ends, e, l) = ramp-last step 0 num_seqs in
    record {
      requests = length-ramp step 0 num_seqs ∙ sym many;
      rises = ramp-IsMonotone step 0 num_seqs;
      first = 0;
      ends = ends;
      are = e;
      last = omega (arith, l, total);
      fewer = λ r n m en em some_token.
          omega (arith, ramp-query step 0 num_seqs r m em, small r n en some_token);
    }

even_split : (m n : ℕ) → m % n ≡ 0 → n * (m / n) ≡ m
even_split m n e = omega (arith, div-add-mod' m n)

zero_add : (n : ℕ) → 0 + n ≡ n
zero_add n = omega arith

live-IsProjected :
    (locs : List ℕ) (num_seqs available : ℕ) (out : List ℕ)
    → length locs ≡ suc num_seqs
    → live_query_start_loc locs num_seqs available ≡ some out
    → IsProjected locs available out
unfolding live_query_start_loc
live-IsProjected locs num_seqs available out many e =
    let step = available / num_seqs in
    elim (if_cases (available == num_seqs) _ _ out e) [
      | inl (one, e1) ↦ subst (IsProjected locs available) (some_injective e1) (
          ramp-IsProjected locs 1 num_seqs available many (ground arith)
            (λ r n en some_token. omega arith))
      | inr (_, e1) ↦
          elim (if_cases (available % num_seqs == 0 && all_at_least step (query_lens locs)) _ _ out
            e1) [
              | inl (even, e2) ↦ subst (IsProjected locs available) (some_injective e2) (
                  ramp-IsProjected locs step num_seqs available many
                    (even_split available num_seqs (ground arith))
                    (λ r n en some_token.
                      all_at_least-get step (query_lens locs) r n (ground arith) en))
              | inr (_, e2) ↦ cc
            ]
    ]

zeros-ramp : (a : ℕ) (rest : List ℕ) → map (λ _. 0) (a ∷ rest) ≡ ramp 0 0 (length rest)
unfolding ramp
zeros-ramp a [] = refl
zeros-ramp a (b ∷ rest) = ap (λ l. 0 ∷ l) (zeros-ramp b rest)

zeros-IsProjected :
    (a : ℕ) (rest : List ℕ) (available : ℕ)
    → available ≡ 0
    → IsProjected (a ∷ rest) available (map (λ _. 0) (a ∷ rest))
zeros-IsProjected a rest available e =
    subst (IsProjected (a ∷ rest) available) (sym (zeros-ramp a rest)) (
      ramp-IsProjected (a ∷ rest) 0 (length rest) available refl (omega (arith, e))
        (λ r n en some_token. omega arith))

one_query :
    (b available r n : ℕ)
    → available < b
    → get_elem? (query_lens (0 ∷ b ∷ [])) r ≡ some n
    → available ≤ n
unfolding query_lens
one_query b available zero n lt e = omega (arith, some_injective e)
one_query b available (suc r) n lt e = cc

single-IsProjected :
    (b : ℕ) (rest : List ℕ) (available : ℕ)
    → length (b ∷ rest) ≡ 1
    → available < last_or b rest
    → IsProjected (0 ∷ b ∷ rest) available (0 ∷ available ∷ [])
unfolding ramp
single-IsProjected b [] available one lt =
    subst (IsProjected (0 ∷ b ∷ []) available) (ap (λ x. 0 ∷ x ∷ []) (zero_add available)) (
      ramp-IsProjected (0 ∷ b ∷ []) available 1 available refl (omega arith)
        (λ r n en some_token. one_query b available r n lt en))
single-IsProjected b (c ∷ rest) available one lt = absurd (omega arith)

-- Where the locations are for more tokens than there are, those that are returned are for the tokens
-- that there are: as many requests, locations that rise, the last of them the number of tokens, and
-- no request with more tokens than it had, if it had one. Where the locations are for no more, they
-- stay as they are.
pub normalize-IsProjected :
    (rest : List ℕ) (available : ℕ) (out : List ℕ)
    → normalize_query_start_loc (0 ∷ rest) available ≡ some out
    → ((last_or 0 rest ≤ available) × (out ≡ 0 ∷ rest))
      ⊎ ((available < last_or 0 rest) × IsProjected (0 ∷ rest) available out)
unfolding normalize_query_start_loc
normalize-IsProjected [] available out e = inl (omega arith, sym (some_injective e))
normalize-IsProjected (b ∷ rest) available out e =
    elim (if_cases (leb (last_or b rest) available) _ _ out e) [
      | inl (enough, e1) ↦ inl (ground arith, sym (some_injective e1))
      | inr (short, e1) ↦
          let lt : available < last_or b rest = ground arith in
          inr (
            lt,
            elim (if_cases (available == 0) _ _ out e1) [
              | inl (nothing, e2) ↦
                  subst (IsProjected (0 ∷ b ∷ rest) available) (some_injective e2)
                    (zeros-IsProjected 0 (b ∷ rest) available (ground arith))
              | inr (_, e2) ↦ elim (if_cases (length (b ∷ rest) == 1) _ _ out e2) [
                | inl (one, e3) ↦
                    subst (IsProjected (0 ∷ b ∷ rest) available) (some_injective e3)
                      (single-IsProjected b rest available (ground arith) lt)
                | inr (_, e3) ↦
                    live-IsProjected (0 ∷ b ∷ rest) (length (b ∷ rest)) available out refl e3
              ]
            ],
          )
    ]
