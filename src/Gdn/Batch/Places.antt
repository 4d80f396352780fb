-- ===== src/Gdn/Batch/Places.antt =====
-- Where the tokens of a request stand in the order of the two kinds.
use v100_skinny_unify.Prelude.{
  ℕ, zero, suc, ◌+◌, ◌<◌, ◌≡◌, refl, sym, ap, ap₂, ◌∙◌, Bool, true, false, Option, some, List, [],
  ◌∷◌, ◌++◌, if_true, if_false, arith,
}
use v100_skinny_unify.Prelude.Options.{some_injective}
use v100_skinny_unify.Prelude.Lists.{length, get_elem?, take, replicate}
use v100_skinny_unify.Queries.{total}
use v100_skinny_unify.Gdn.Batch.{same_kind, repeat_mask, places}
use v100_skinny_unify.Gdn.Batch.Kinds.{lens_of, before}

add_zero : (t : ℕ) → t + 0 ≡ t
add_zero t = omega arith

zero_add : (t : ℕ) → 0 + t ≡ t
zero_add t = omega arith

suc_add : (t n : ℕ) → suc t + n ≡ suc (t + n)
suc_add t n = omega arith

add_assoc : (t n m : ℕ) → t + n + m ≡ t + (n + m)
add_assoc t n m = omega arith

-- A request of the kind adds its tokens.
places-own :
    (kind : Bool) (t n j : ℕ) (b : Bool) (mask : List Bool)
    → same_kind kind b ≡ true
    → j < n
    → get_elem? (places kind t (replicate n b ++ mask)) j ≡ some (t + j)
unfolding places
places-own kind t zero j b mask own lt = absurd (omega arith)
places-own kind t (suc n) zero b mask own lt =
    ap (λ l. get_elem? l 0) (if_true (same_kind kind b) _ _ own) ∙ ap some (omega arith)
places-own kind t (suc n) (suc j) b mask own lt =
    ap (λ l. get_elem? l (suc j)) (if_true (same_kind kind b) _ _ own)
    ∙ places-own kind (suc t) n j b mask own (omega arith)
    ∙ ap some (omega arith)

places-after :
    (kind : Bool) (t n i : ℕ) (b : Bool) (mask : List Bool)
    → same_kind kind b ≡ true
    → get_elem? (places kind t (replicate n b ++ mask)) (n + i)
      ≡ get_elem? (places kind (t + n) mask) i
unfolding places
places-after kind t zero i b mask own =
    ap₂ (λ s j. get_elem? (places kind s mask) j) (sym (add_zero t)) (zero_add i)
places-after kind t (suc n) i b mask own =
    ap₂ get_elem? (if_true (same_kind kind b) _ _ own) (suc_add n i)
    ∙ places-after kind (suc t) n i b mask own
    ∙ ap (λ s. get_elem? (places kind s mask) i) (omega arith)

places-other :
    (kind : Bool) (t n : ℕ) (b : Bool) (mask : List Bool)
    → same_kind kind b ≡ false
    → places kind t (replicate n b ++ mask) ≡ places kind (t + n) mask
unfolding places
places-other kind t zero b mask other = ap (λ s. places kind s mask) (omega arith)
places-other kind t (suc n) b mask other =
    if_false (same_kind kind b) _ _ other
    ∙ places-other kind (suc t) n b mask other
    ∙ ap (λ s. places kind s mask) (omega arith)

length-places_own :
    (kind : Bool) (t n : ℕ) (b : Bool) (mask : List Bool)
    → same_kind kind b ≡ true
    → length (places kind t (replicate n b ++ mask)) ≡ n + length (places kind (t + n) mask)
unfolding places
length-places_own kind t zero b mask own =
    ap (λ s. length (places kind s mask)) (sym (add_zero t)) ∙ sym (zero_add _)
length-places_own kind t (suc n) b mask own =
    ap length (if_true (same_kind kind b) _ _ own)
    ∙ ap suc (
        length-places_own kind (suc t) n b mask own
        ∙ ap (λ s. n + length (places kind s mask)) (omega arith))
    ∙ sym (suc_add n _)

-- As many places as tokens.
pub length-places :
    (kind : Bool) (t : ℕ) (mask : List Bool) (lens : List ℕ)
    → length (places kind t (repeat_mask mask lens)) ≡ total (lens_of kind mask lens)
unfolding repeat_mask lens_of total places
length-places kind t [] lens = refl
length-places kind t (b ∷ mask) [] = refl
length-places true t (true ∷ mask) (n ∷ lens) =
    length-places_own true t n true (repeat_mask mask lens) refl
    ∙ ap (λ l. n + l) (length-places true (t + n) mask lens)
length-places false t (false ∷ mask) (n ∷ lens) =
    length-places_own false t n false (repeat_mask mask lens) refl
    ∙ ap (λ l. n + l) (length-places false (t + n) mask lens)
length-places true t (false ∷ mask) (n ∷ lens) =
    ap length (places-other true t n false (repeat_mask mask lens) refl)
    ∙ length-places true (t + n) mask lens
length-places false t (true ∷ mask) (n ∷ lens) =
    ap length (places-other false t n true (repeat_mask mask lens) refl)
    ∙ length-places false (t + n) mask lens

same_kind_refl : (kind : Bool) → same_kind kind kind ≡ true
same_kind_refl true = refl
same_kind_refl false = refl

-- A first request that is of the kind, or not.
get-places_own :
    (kind : Bool) (t m i j : ℕ) (b : Bool) (mask : List Bool) {r : Option ℕ}
    → same_kind kind b ≡ true
    → get_elem? (places kind (t + m) mask) (i + j) ≡ r
    → get_elem? (places kind t (replicate m b ++ mask)) (m + i + j) ≡ r
get-places_own kind t m i j b mask own later =
    ap (get_elem? (places kind t (replicate m b ++ mask))) (add_assoc m i j)
    ∙ places-after kind t m (i + j) b mask own
    ∙ later

get-places_other :
    (kind : Bool) (t m i j : ℕ) (b : Bool) (mask : List Bool) {r : Option ℕ}
    → same_kind kind b ≡ false
    → get_elem? (places kind (t + m) mask) (i + j) ≡ r
    → get_elem? (places kind t (replicate m b ++ mask)) (0 + i + j) ≡ r
get-places_other kind t m i j b mask other later =
    ap₂ get_elem? (places-other kind t m b mask other) (ap (λ x. x + j) (zero_add i)) ∙ later

-- Token j of request i is the place of the token in the batch.
pub get-places :
    (kind : Bool) (t : ℕ) (mask : List Bool) (lens : List ℕ) (i j n : ℕ)
    → get_elem? mask i ≡ some kind
    → get_elem? lens i ≡ some n
    → j < n
    → get_elem? (places kind t (repeat_mask mask lens)) (before kind mask lens i + j)
      ≡ some (t + total (take i lens) + j)
unfolding repeat_mask before total
get-places kind t [] lens i j n em en lt = cc
get-places kind t (b ∷ mask) [] i j n em en lt = cc
get-places kind t (b ∷ mask) (m ∷ lens) zero j n em en lt =
    let own = ap (same_kind kind) (some_injective em) ∙ same_kind_refl kind in
    let inside : j < m = omega (arith, some_injective en) in
    ap (get_elem? (places kind t (replicate m b ++ repeat_mask mask lens))) (zero_add j)
    ∙ places-own kind t m j b (repeat_mask mask lens) own inside
    ∙ ap some (omega arith)
get-places true t (true ∷ mask) (m ∷ lens) (suc i) j n em en lt =
    get-places_own true t m (before true mask lens i) j true (repeat_mask mask lens) refl
      (get-places true (t + m) mask lens i j n em en lt ∙ ap some (omega arith))
get-places false t (false ∷ mask) (m ∷ lens) (suc i) j n em en lt =
    get-places_own false t m (before false mask lens i) j false (repeat_mask mask lens) refl
      (get-places false (t + m) mask lens i j n em en lt ∙ ap some (omega arith))
get-places true t (false ∷ mask) (m ∷ lens) (suc i) j n em en lt =
    get-places_other true t m (before true mask lens i) j false (repeat_mask mask lens) refl
      (get-places true (t + m) mask lens i j n em en lt ∙ ap some (omega arith))
get-places false t (true ∷ mask) (m ∷ lens) (suc i) j n em en lt =
    get-places_other false t m (before false mask lens i) j true (repeat_mask mask lens) refl
      (get-places false (t + m) mask lens i j n em en lt ∙ ap some (omega arith))
