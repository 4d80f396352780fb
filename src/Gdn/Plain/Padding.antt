-- ===== src/Gdn/Plain/Padding.antt =====
-- The padding of a graph that decodes.
use v100_skinny_unify.Prelude.{
  ℕ, zero, suc, ◌≤◌, ◌≡◌, sym, ap, ◌∙◌, Bool, Bool-cases, true, false, Option, some, List, [], ◌∷◌,
  map, ltb, ◌==◌, ◌&&◌, if◌then◌else◌, if_false, ◌⊎◌, inl, inr, arith,
}
use v100_skinny_unify.Prelude.Options.{◌>>=◌, >>=-first, some_injective}
use v100_skinny_unify.Prelude.Lists.{get_elem?, get_or}
use v100_skinny_unify.Queries.{query_lens}
use v100_skinny_unify.Gdn.Contract.{zip_rows}
use v100_skinny_unify.Gdn.Plain.{Plain, any_zero, lane, masked_states}

any_zero-get : (ns : List ℕ) (r : ℕ) → get_elem? ns r ≡ some 0 → any_zero ns ≡ true
unfolding any_zero
any_zero-get [] r e = cc
any_zero-get (n ∷ ns) zero e = ground (arith, some_injective e)
any_zero-get (n ∷ ns) (suc r) e = ground (arith, any_zero-get ns r e)

get-map_const :
    {A : Type 0} (x : A) (xs : List A) (r : ℕ) (a : A)
    → get_elem? (map (λ _. x) xs) r ≡ some a
    → a ≡ x
get-map_const x [] r a e = cc
get-map_const x (y ∷ xs) zero a e = sym (some_injective e)
get-map_const x (y ∷ xs) (suc r) a e = get-map_const x xs r a e

pub get_or-some :
    {A : Type 0} (xs : List A) (r : ℕ) (a d : A) → get_elem? xs r ≡ some a → get_or xs r d ≡ a
get_or-some [] r a d e = cc
get_or-some (x ∷ xs) zero a d e = some_injective e
get_or-some (x ∷ xs) (suc r) a d e = get_or-some xs r a d e

module _ {A : Type 0} (pad : A) where
  lane_rest : List ℕ → List A → A → Option (List A)
  unfolding zip_rows
  lane_rest ns xs z = zip_rows (lane pad) ns xs >>= λ rest. some (z ∷ rest)

  -- Row r is padding where the request has no tokens.
  lane_rows :
      (lens : List ℕ) (states lanes : List A) (r : ℕ) (a : A)
      → zip_rows (lane pad) lens states ≡ some lanes
      → get_elem? lens r ≡ some 0
      → get_elem? lanes r ≡ some a
      → a ≡ pad
  unfolding zip_rows lane_rest
  lane_rows [] states lanes r a e empty at = cc
  lane_rows (n ∷ ns) [] lanes r a e empty at = cc
  lane_rows (n ∷ ns) (x ∷ xs) lanes zero a e empty at =
      let (z, one, q) = >>=-first (lane pad n x) (lane_rest ns xs) e in
      let (rest, others, q') = >>=-first (zip_rows (lane pad) ns xs) (λ rest. some (z ∷ rest)) q in
      sym (some_injective (ap (λ l. get_elem? l 0) (some_injective q') ∙ at))
      ∙ sym (some_injective one)
      ∙ if_false (ltb 0 n) x pad (ground (arith, some_injective empty))
  lane_rows (n ∷ ns) (x ∷ xs) lanes (suc r) a e empty at =
      let (z, one, q) = >>=-first (lane pad n x) (lane_rest ns xs) e in
      let (rest, others, q') = >>=-first (zip_rows (lane pad) ns xs) (λ rest. some (z ∷ rest)) q in
      lane_rows ns xs rest r a others empty (ap (λ l. get_elem? l (suc r)) (some_injective q') ∙ at)

  lanes-pad :
      (test : Bool) (lens : List ℕ) (states lanes : List A) (r : ℕ) (a : A)
      → (if test then zip_rows (lane pad) lens states else some states) ≡ some lanes
      → test ≡ true
      → get_elem? lens r ≡ some 0
      → get_elem? lanes r ≡ some a
      → a ≡ pad
  lanes-pad true lens states lanes r a e on empty at = lane_rows lens states lanes r a e empty at
  lanes-pad false lens states lanes r a e on empty at = cc

  captured-pad :
      (test : Bool) (lanes states : List A) (r : ℕ) (a : A)
      → (if test then map (λ _. pad) lanes else lanes) ≡ states
      → test ≡ true
      → get_elem? states r ≡ some a
      → a ≡ pad
  captured-pad true lanes states r a e on at =
      get-map_const pad lanes r a (ap (λ l. get_elem? l r) e ∙ at)
  captured-pad false lanes states r a e on at = cc

  -- A request that a graph must not decode: padding, one without tokens, or any of a capture.
  abbrev pub IsIdle : Plain A → ℕ → ℕ → Type 0
  IsIdle i num_decodes r =
      (num_decodes ≤ r)
      ⊎ (i.for_capture ≡ true)
      ⊎ (get_elem? (query_lens (i.first_start ∷ i.ends)) r ≡ some 0)

  pub masked-pad :
      (i : Plain A) (lens : List ℕ) (num_prefills : ℕ) (selected states : List A) (r : ℕ) (a : A)
      → masked_states pad i lens num_prefills selected ≡ some states
      → num_prefills ≡ 0
      → (i.for_capture ≡ true) ⊎ (get_elem? lens r ≡ some 0)
      → get_elem? states r ≡ some a
      → a ≡ pad
  unfolding masked_states
  masked-pad i lens num_prefills selected states r a e no_prefill idle at =
      let (lanes, found, q) =
        >>=-first
          (if num_prefills == 0 && any_zero lens
            then zip_rows (lane pad) lens selected
            else some selected)
          _ e in
      elim (Bool-cases i.for_capture) [
        | inl capture ↦
            captured-pad (i.for_capture && num_prefills == 0) lanes states r a (some_injective q)
              (ground arith) at
        | inr live ↦
            let same : lanes ≡ states =
              sym (
                if_false (i.for_capture && num_prefills == 0) (map (λ _. pad) lanes) lanes
                  (ground arith))
              ∙ some_injective q in
            elim idle [
              | inl capture ↦ cc
              | inr empty ↦
                  lanes-pad (num_prefills == 0 && any_zero lens) lens selected lanes r a found
                    (ground (arith, any_zero-get lens r empty)) empty
                    (ap (λ l. get_elem? l r) same ∙ at)
            ]
      ]
