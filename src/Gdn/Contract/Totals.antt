-- ===== src/Gdn/Contract/Totals.antt =====
-- The rows, the masks and the loops of the contract, where they return a result.
use v100_skinny_unify.Prelude.{
  ℕ, zero, suc, min, ◌<◌, ◌≡◌, refl, ap, ◌∙◌, Bool, true, false, Option, none, some, List, [], ◌∷◌,
  map, arith,
}
use v100_skinny_unify.Prelude.Lists.{length, get_elem?, take}
use v100_skinny_unify.Prelude.Options.{◌>>=◌, Holds, >>=-Holds, Holds-some}
use v100_skinny_unify.Gdn.Contract.{pick, zip_rows, traverse}

-- A result is returned.
abbrev pub Returns : {X : Type 0} → Option X → Type 0
Returns none = ⊥
Returns (some x) = Unit {0}

pub Returns-some : {X : Type 0} (o : Option X) → Returns o → (x : X) × (o ≡ some x)
Returns-some none h = absurd h
Returns-some (some x) h = (x, refl)

pub >>=-Returns :
    {X Y : Type 0} (o : Option X) (next : X → Option Y)
    → Returns o
    → ((x : X) → o ≡ some x → Returns (next x))
    → Returns (o >>= next)
unfolding ◌>>=◌
>>=-Returns none next h step = absurd h
>>=-Returns (some x) next h step = step x refl

-- Every row has the width of the table.
abbrev pub AreWide : {A : Type 0} → ℕ → List (List A) → Type 0
AreWide w [] = Unit {0}
AreWide w (row ∷ rows) = (length row ≡ w) × AreWide w rows

pub pick-Returns :
    {X : Type 0} (mask : List Bool) (xs : List X) → length xs ≡ length mask → Returns (pick mask xs)
unfolding pick
pick-Returns [] [] h = tt
pick-Returns [] (x ∷ xs) h = absurd (ground arith)
pick-Returns (true ∷ mask) [] h = absurd (ground arith)
pick-Returns (false ∷ mask) [] h = absurd (ground arith)
pick-Returns (true ∷ mask) (x ∷ xs) h =
    >>=-Returns _ _ (pick-Returns mask xs (omega arith)) λ rest e. tt
pick-Returns (false ∷ mask) (x ∷ xs) h = pick-Returns mask xs (omega arith)

pub pick-AreWide :
    {A : Type 0} (w : ℕ) (mask : List Bool) (rows : List (List A))
    → AreWide w rows
    → Holds (AreWide w) (pick mask rows)
unfolding pick Holds
pick-AreWide w [] [] wide = tt
pick-AreWide w [] (row ∷ rows) wide = tt
pick-AreWide w (true ∷ mask) [] wide = tt
pick-AreWide w (false ∷ mask) [] wide = tt
pick-AreWide w (true ∷ mask) (row ∷ rows) (wide, rest) =
    >>=-Holds (AreWide w) (pick mask rows) (λ rest. some (row ∷ rest))
      λ rows' e. (wide, Holds-some (AreWide w) _ (pick-AreWide w mask rows rest) e)
pick-AreWide w (false ∷ mask) (row ∷ rows) (wide, rest) = pick-AreWide w mask rows rest

pub get-Returns : {X : Type 0} (xs : List X) (n : ℕ) → n < length xs → Returns (get_elem? xs n)
get-Returns [] n h = absurd (omega arith)
get-Returns (x ∷ xs) zero h = tt
get-Returns (x ∷ xs) (suc n) h = get-Returns xs n (omega arith)

pub traverse-Returns :
    {X Y : Type 0} (f : X → Option Y) (xs : List X)
    → ((x : X) → Returns (f x))
    → Returns (traverse f xs)
unfolding traverse
traverse-Returns f [] h = tt
traverse-Returns f (x ∷ xs) h =
    >>=-Returns _ _ (h x) λ y e. >>=-Returns _ _ (traverse-Returns f xs h) λ rest e'. tt

pub traverse_wide-Returns :
    {A Y : Type 0} (w : ℕ) (f : List A → Option Y) (rows : List (List A))
    → AreWide w rows
    → ((row : List A) → length row ≡ w → Returns (f row))
    → Returns (traverse f rows)
unfolding traverse
traverse_wide-Returns w f [] wide h = tt
traverse_wide-Returns w f (row ∷ rows) (wide, rest) h =
    >>=-Returns _ _ (h row wide)
      λ y e. >>=-Returns _ _ (traverse_wide-Returns w f rows rest h) λ ys e'. tt

pub zip_rows-Returns :
    {A Y Z : Type 0} (w : ℕ) (f : List A → Y → Option Z) (rows : List (List A)) (ys : List Y)
    → AreWide w rows
    → length ys ≡ length rows
    → ((row : List A) (y : Y) → length row ≡ w → Returns (f row y))
    → Returns (zip_rows f rows ys)
unfolding zip_rows
zip_rows-Returns w f [] [] wide same h = tt
zip_rows-Returns w f [] (y ∷ ys) wide same h = absurd (ground arith)
zip_rows-Returns w f (row ∷ rows) [] wide same h = absurd (ground arith)
zip_rows-Returns w f (row ∷ rows) (y ∷ ys) (wide, rest) same h =
    >>=-Returns _ _ (h row y wide)
      λ z e. >>=-Returns _ _ (zip_rows-Returns w f rows ys rest (omega arith) h) λ zs e'. tt

length-take : {X : Type 0} (n : ℕ) (xs : List X) → length (take n xs) ≡ min n (length xs)
length-take zero xs = omega arith
length-take (suc n) [] = omega arith
length-take (suc n) (x ∷ xs) = omega (arith, length-take n xs)

pub columns-AreWide :
    {A : Type 0} (n w : ℕ) (rows : List (List A))
    → AreWide w rows
    → AreWide (min n w) (map (take n) rows) × (length (map (take n) rows) ≡ length rows)
columns-AreWide n w [] wide = (tt, refl)
columns-AreWide n w (row ∷ rows) (wide, rest) =
    let (r, l) = columns-AreWide n w rows rest in
    ((length-take n row ∙ ap (min n) wide, r), omega (arith, l))
