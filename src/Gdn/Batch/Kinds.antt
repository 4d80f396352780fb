-- ===== src/Gdn/Batch/Kinds.antt =====
-- The lengths of the queries of one kind, and what comes before a request.
use v100_skinny_unify.Prelude.{
  ℕ, zero, suc, ◌+◌, ◌≤◌, ◌<◌, ◌≡◌, refl, sym, ap, ◌∙◌, Bool, true, false, some, List, [], ◌∷◌,
  if◌then◌else◌, arith,
}
use v100_skinny_unify.Prelude.Options.{>>=-first, some_injective}
use v100_skinny_unify.Prelude.Lists.{length, get_elem?}
use v100_skinny_unify.Queries.{last_or, total}
use v100_skinny_unify.Gdn.Contract.{pick, invert}
use v100_skinny_unify.Gdn.Contract.Rows.{count}
use v100_skinny_unify.Gdn.Batch.{count_equal, same_kind, cumsum}

-- The mask of a kind.
abbrev pub mask_of : Bool → List Bool → List Bool
mask_of true mask = mask
mask_of false mask = invert mask

abbrev pub only_if {ℓ} : {A : Type ℓ} → Bool → A → List A → List A
only_if true n ns = n ∷ ns
only_if false n ns = ns

unfoldable pub lens_of : Bool → List Bool → List ℕ → List ℕ
lens_of kind (b ∷ mask) (n ∷ lens) = only_if (same_kind kind b) n (lens_of kind mask lens)
lens_of kind _ _ = []

-- The tokens of a kind before request i, and the requests.
unfoldable pub before : Bool → List Bool → List ℕ → ℕ → ℕ
before kind (b ∷ mask) (n ∷ lens) (suc i) =
    (if same_kind kind b then n else 0) + before kind mask lens i
before kind _ _ _ = 0

unfoldable pub rank : Bool → List Bool → ℕ → ℕ
rank kind (b ∷ mask) (suc i) = let r = rank kind mask i in if same_kind kind b then suc r else r
rank kind _ _ = 0

pub pick-lens_of :
    (mask : List Bool) (lens xs : List ℕ) → pick mask lens ≡ some xs → xs ≡ lens_of true mask lens
unfolding pick lens_of
pick-lens_of [] [] xs e = sym (some_injective e)
pick-lens_of [] (n ∷ lens) xs e = cc
pick-lens_of (true ∷ mask) [] xs e = cc
pick-lens_of (false ∷ mask) [] xs e = cc
pick-lens_of (true ∷ mask) (n ∷ lens) xs e =
    let (rest, found, same) = >>=-first (pick mask lens) (λ rest. some (n ∷ rest)) e in
    sym (some_injective same) ∙ ap (λ l. n ∷ l) (pick-lens_of mask lens rest found)
pick-lens_of (false ∷ mask) (n ∷ lens) xs e = pick-lens_of mask lens xs e

pub lens_of-invert :
    (mask : List Bool) (lens : List ℕ) → lens_of true (invert mask) lens ≡ lens_of false mask lens
unfolding lens_of invert
lens_of-invert [] lens = refl
lens_of-invert (true ∷ mask) [] = refl
lens_of-invert (false ∷ mask) [] = refl
lens_of-invert (true ∷ mask) (n ∷ lens) = lens_of-invert mask lens
lens_of-invert (false ∷ mask) (n ∷ lens) = ap (λ l. n ∷ l) (lens_of-invert mask lens)

-- The tokens of the two kinds are all tokens.
pub total-lens_of :
    (mask : List Bool) (lens : List ℕ)
    → length mask ≡ length lens
    → total (lens_of true mask lens) + total (lens_of false mask lens) ≡ total lens
unfolding lens_of total
total-lens_of [] [] same = refl
total-lens_of [] (n ∷ lens) same = absurd (omega arith)
total-lens_of (b ∷ mask) [] same = absurd (omega arith)
total-lens_of (true ∷ mask) (n ∷ lens) same = omega (arith, total-lens_of mask lens (omega arith))
total-lens_of (false ∷ mask) (n ∷ lens) same = omega (arith, total-lens_of mask lens (omega arith))

pub count_equal-le : (ns : List ℕ) → count_equal 1 ns ≤ total ns
unfolding count_equal total
count_equal-le [] = omega arith
count_equal-le (n ∷ ns) = ground (arith, count_equal-le ns)

cumsum-zero : (start : ℕ) (ns : List ℕ) → get_elem? (cumsum start ns) 0 ≡ some (start + 0)
unfolding cumsum
cumsum-zero start [] = ap some (omega arith)
cumsum-zero start (n ∷ ns) = ap some (omega arith)

-- The location of a request among those of its kind.
pub get-cumsum :
    (kind : Bool) (start : ℕ) (mask : List Bool) (lens : List ℕ) (i : ℕ)
    → length mask ≡ length lens
    → i ≤ length mask
    → get_elem? (cumsum start (lens_of kind mask lens)) (rank kind mask i)
      ≡ some (start + before kind mask lens i)
unfolding cumsum lens_of rank before
get-cumsum kind start [] lens zero same le = cumsum-zero start (lens_of kind [] lens)
get-cumsum kind start [] lens (suc i) same le = absurd (omega arith)
get-cumsum kind start (b ∷ mask) [] i same le = absurd (omega arith)
get-cumsum kind start (b ∷ mask) (n ∷ lens) zero same le =
    cumsum-zero start (lens_of kind (b ∷ mask) (n ∷ lens))
get-cumsum true start (true ∷ mask) (n ∷ lens) (suc i) same le =
    get-cumsum true (start + n) mask lens i (omega arith) (omega arith) ∙ ap some (omega arith)
get-cumsum true start (false ∷ mask) (n ∷ lens) (suc i) same le =
    get-cumsum true start mask lens i (omega arith) (omega arith) ∙ ap some (omega arith)
get-cumsum false start (false ∷ mask) (n ∷ lens) (suc i) same le =
    get-cumsum false (start + n) mask lens i (omega arith) (omega arith) ∙ ap some (omega arith)
get-cumsum false start (true ∷ mask) (n ∷ lens) (suc i) same le =
    get-cumsum false start mask lens i (omega arith) (omega arith) ∙ ap some (omega arith)

pub cumsum-last :
    (start : ℕ) (ns : List ℕ)
    → (first : ℕ) × (rest : List ℕ) × (cumsum start ns ≡ first ∷ rest)
      × (last_or first rest ≡ start + total ns)
unfolding cumsum total
cumsum-last start [] = (start, [], refl, omega arith)
cumsum-last start (n ∷ ns) =
    let (first, rest, e, last) = cumsum-last (start + n) ns in
    (start, first ∷ rest, ap (λ l. start ∷ l) e, omega (arith, last))

-- A request of the other kind with tokens is not among the empty ones.
zeros-le : (ns : List ℕ) → count_equal 0 ns ≤ length ns
unfolding count_equal
zeros-le [] = omega arith
zeros-le (n ∷ ns) = ground (arith, zeros-le ns)

pub zeros-lt :
    (mask : List Bool) (lens : List ℕ) (r n : ℕ)
    → get_elem? mask r ≡ some false
    → get_elem? lens r ≡ some n
    → 0 < n
    → count_equal 0 (lens_of false mask lens) < length (lens_of false mask lens)
unfolding count_equal lens_of
zeros-lt [] lens r n em en lt = cc
zeros-lt (b ∷ mask) [] r n em en lt = cc
zeros-lt (true ∷ mask) (m ∷ lens) zero n em en lt = cc
zeros-lt (false ∷ mask) (m ∷ lens) zero n em en lt =
    ground (arith, zeros-le (lens_of false mask lens), some_injective en)
zeros-lt (true ∷ mask) (m ∷ lens) (suc r) n em en lt = zeros-lt mask lens r n em en lt
zeros-lt (false ∷ mask) (m ∷ lens) (suc r) n em en lt =
    ground (arith, zeros-lt mask lens r n em en lt)

pub ones_and_zeros : (ns : List ℕ) → count_equal 1 ns + count_equal 0 ns ≤ length ns
unfolding count_equal
ones_and_zeros [] = omega arith
ones_and_zeros (n ∷ ns) = ground (arith, ones_and_zeros ns)

pub length-lens_of :
    (mask : List Bool) (lens : List ℕ)
    → length mask ≡ length lens
    → length (lens_of false mask lens) + count mask ≡ length mask
unfolding lens_of count
length-lens_of [] lens same = refl
length-lens_of (b ∷ mask) [] same = absurd (omega arith)
length-lens_of (true ∷ mask) (n ∷ lens) same = omega (arith, length-lens_of mask lens (omega arith))
length-lens_of (false ∷ mask) (n ∷ lens) same =
    omega (arith, length-lens_of mask lens (omega arith))
