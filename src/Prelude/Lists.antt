-- ===== src/Prelude/Lists.antt =====
-- Lists measured by native numbers, under the library's names.
use Prim.Native.Nat.{ℕ, zero, suc, ◌+◌, ◌-◌, ◌≤◌, ◌<◌}
use mathlib.Core.Logic.{◌⊎◌, inl, inr}
use mathlib.Core.Option.{Option, none, some}
use mathlib.Core.Path.{◌≡◌, refl, ap, ◌∙◌}
use mathlib.Core.List.{List, [], ◌∷◌, ◌++◌}
use native.Mathlib.Omega.{arith}

module _ {ℓ} {A : Type ℓ} where
  abbrev pub length : List A → ℕ
  length [] = 0
  length (x ∷ xs) = suc (length xs)

  pub length-append : (xs ys : List A) → length (xs ++ ys) ≡ length xs + length ys
  length-append [] ys = omega arith
  length-append (x ∷ xs) ys = omega (arith, length-append xs ys)

module _ {ℓ} {A : Type ℓ} where
  abbrev pub get_or : List A → ℕ → A → A
  get_or [] i d = d
  get_or (x ∷ xs) zero d = x
  get_or (x ∷ xs) (suc i) d = get_or xs i d

module _ {ℓ} {A : Type ℓ} where
  abbrev pub get_elem? : List A → ℕ → Option A
  get_elem? [] i = none
  get_elem? (x ∷ xs) zero = some x
  get_elem? (x ∷ xs) (suc i) = get_elem? xs i

  abbrev pub take : ℕ → List A → List A
  take zero xs = []
  take (suc n) [] = []
  take (suc n) (x ∷ xs) = x ∷ take n xs

  abbrev pub drop : ℕ → List A → List A
  drop zero xs = xs
  drop (suc n) [] = []
  drop (suc n) (x ∷ xs) = drop n xs

module _ {ℓ} {A : Type ℓ} where
  pub take-append-drop : (n : ℕ) (xs : List A) → take n xs ++ drop n xs ≡ xs
  take-append-drop zero xs = refl
  take-append-drop (suc n) [] = refl
  take-append-drop (suc n) (x ∷ xs) = rw (take-append-drop n xs)

  pub length-take_le : (n : ℕ) (xs : List A) → length (take n xs) ≤ n
  length-take_le zero xs = omega arith
  length-take_le (suc n) [] = omega arith
  length-take_le (suc n) (x ∷ xs) = omega (arith, length-take_le n xs)

  pub length-drop : (n : ℕ) (xs : List A) → length (drop n xs) ≡ length xs - n
  length-drop zero xs = omega arith
  length-drop (suc n) [] = omega arith
  length-drop (suc n) (x ∷ xs) = omega (arith, length-drop n xs)

pub get-cases : {A : Type 0} (xs : List A) (i : ℕ) → (i < length xs) ⊎ (get_elem? xs i ≡ none)
get-cases [] i = inr refl
get-cases (x ∷ xs) zero = inl (omega arith)
get-cases (x ∷ xs) (suc i) = elim (get-cases xs i) [ inl lt ↦ inl (omega arith) | inr e ↦ inr e ]

pub get-some :
    {A : Type 0} (xs : List A) (a : ℕ) → a < length xs → (z : A) × (get_elem? xs a ≡ some z)
get-some [] a h = absurd (omega arith)
get-some (z ∷ xs) zero h = (z, refl)
get-some (_ ∷ xs) (suc a) h = get-some xs a (omega arith)

abbrev pub replicate {ℓ} : {A : Type ℓ} → ℕ → A → List A
replicate zero x = []
replicate (suc n) x = x ∷ replicate n x

pub get-replicate : {A : Type 0} (n i : ℕ) (x : A) → i < n → get_elem? (replicate n x) i ≡ some x
get-replicate zero i x h = absurd (omega arith)
get-replicate (suc n) zero x h = refl
get-replicate (suc n) (suc i) x h = get-replicate n i x (omega arith)

pub get-in_copies :
    {A : Type 0} (n i : ℕ) (x : A) (ys : List A)
    → i < n
    → get_elem? (replicate n x ++ ys) i ≡ some x
get-in_copies zero i x ys h = absurd (omega arith)
get-in_copies (suc n) zero x ys h = refl
get-in_copies (suc n) (suc i) x ys h = get-in_copies n i x ys (omega arith)

suc_add : (n i : ℕ) → suc n + i ≡ suc (n + i)
suc_add n i = omega arith

pub get-after_copies :
    {A : Type 0} (n i : ℕ) (x : A) (ys : List A)
    → get_elem? (replicate n x ++ ys) (n + i) ≡ get_elem? ys i
get-after_copies zero i x ys = ap (get_elem? ys) (omega arith)
get-after_copies (suc n) i x ys =
    ap (get_elem? (x ∷ (replicate n x ++ ys))) (suc_add n i) ∙ get-after_copies n i x ys
