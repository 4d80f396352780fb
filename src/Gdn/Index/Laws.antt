-- ===== src/Gdn/Index/Laws.antt =====
-- The buffer of token indices holds torch.arange as far as it says.
use v100_skinny_unify.Prelude.{
  ℕ, zero, suc, ◌+◌, ◌≤◌, ◌<◌, ◌≡◌, refl, sym, ap, ap₂, ◌∙◌, Bool, true, false, some, List, ◌∷◌,
  max, min, leb, ltb, if◌then◌else◌, if_true, if_false, arith, Bool-cases, inl, inr,
}
use mathlib.Core.Path.{subst}
use v100_skinny_unify.Prelude.Lists.{length, get_or}
use v100_skinny_unify.Gdn.Contract.{arange}
use v100_skinny_unify.Gdn.Fast.{copy}
use v100_skinny_unify.Gdn.Index.{
  Index, write_arange, view, extend, token_index, fast_token_index, init_rows, placeholder_rows,
  graph_rows,
}

-- The first n elements are 0 to n - 1.
abbrev pub IsArange : ℕ → (ℕ → ℕ) → Type 0
IsArange n buffer = (i : ℕ) → i < n → buffer i ≡ i

abbrev pub IsInitialized : Index → Type 0
IsInitialized x = IsArange x.initialized x.at

write_arange-at :
    (from to i : ℕ) (buffer : ℕ → ℕ)
    → (i < from → buffer i ≡ i)
    → i < to
    → write_arange from to buffer i ≡ i
unfolding write_arange
write_arange-at from to i buffer h lt = ground arith

-- Writing more of it keeps what is there.
write_arange-keeps :
    (from to i : ℕ) (buffer : ℕ → ℕ) → buffer i ≡ i → write_arange from to buffer i ≡ i
unfolding write_arange
write_arange-keeps from to i buffer h = ground arith

extend-IsInitialized : (n : ℕ) (x : Index) → IsInitialized x → IsInitialized (extend n x)
unfolding extend
extend-IsInitialized n x h = elim (Bool-cases (ltb x.initialized n)) [
  | inl more ↦
      subst IsInitialized (sym (if_true (ltb x.initialized n) _ _ more))
        (λ i lt. write_arange-at x.initialized n i x.at (h i) lt)
  | inr enough ↦ subst IsInitialized (sym (if_false (ltb x.initialized n) _ _ enough)) h
]

extend-IsArange : (n : ℕ) (x : Index) → IsInitialized x → IsArange n (extend n x).at
unfolding extend
extend-IsArange n x h = elim (Bool-cases (ltb x.initialized n)) [
  | inl more ↦
      subst (λ (y : Index). IsArange n y.at) (sym (if_true (ltb x.initialized n) _ _ more))
        (λ i lt. write_arange-at x.initialized n i x.at (h i) lt)
  | inr enough ↦
      subst (λ (y : Index). IsArange n y.at) (sym (if_false (ltb x.initialized n) _ _ enough))
        (λ i lt. h i (ground arith))
]

view-arange :
    (buffer : ℕ → ℕ) (i n : ℕ)
    → ((j : ℕ) → i ≤ j → j < i + n → buffer j ≡ j)
    → view buffer i n ≡ arange i n
unfolding view arange
view-arange buffer i zero h = refl
view-arange buffer i (suc n) h =
    ap₂ (λ x xs. x ∷ xs) (h i (omega arith) (omega arith))
      (view-arange buffer (i + 1) n (λ j le lt. h j (omega arith) (omega arith)))

get-arange : (start i n d : ℕ) → i < n → get_or (arange start n) i d ≡ start + i
unfolding arange
get-arange start i zero d h = absurd (omega arith)
get-arange start zero (suc n) d h = omega arith
get-arange start (suc i) (suc n) d h = omega (arith, get-arange (start + 1) i n d (omega arith))

length-arange : (start n : ℕ) → length (arange start n) ≡ n
unfolding arange
length-arange start zero = refl
length-arange start (suc n) = ap suc (length-arange (start + 1) n)

copy-arange :
    (n k : ℕ) (buffer : ℕ → ℕ) → IsArange k buffer → IsArange (max k n) (copy (arange 0 n) buffer)
unfolding copy
copy-arange n k buffer h i lt = elim (Bool-cases (ltb i (length (arange 0 n)))) [
  | inl new ↦
      if_true (ltb i (length (arange 0 n))) _ _ new
      ∙ get-arange 0 i n (buffer i) (ground (arith, length-arange 0 n))
      ∙ omega arith
  | inr old ↦
      if_false (ltb i (length (arange 0 n))) _ _ old ∙ h i (ground (arith, length-arange 0 n))
]

-- The states of a buffer after builds; a copy in place is one of a buffer of the builder itself.
pub data Ran (shared : Bool) : Index → Type 0 where
  new : {x : Index} → x.initialized ≡ 0 → Ran shared x
  init : {x : Index} → (rows : ℕ) → Ran shared x → Ran shared (init_rows shared rows x)
  placeholder : {x : Index} → (rows : ℕ) → Ran shared x → Ran shared (placeholder_rows rows x)
  took : {x : Index} → (n : ℕ) → Ran shared x → Ran shared (token_index n x).0
  took_fast :
      {x y : Index}
      → (width query_len : ℕ) (xs : List ℕ) → fast_token_index width query_len x ≡ some (y, xs)
      → Ran shared x
      → Ran shared y
  graph :
      {x : Index}
      → (in_place : Bool) (n : ℕ) → (in_place ≡ true → shared ≡ false)
      → Ran shared x
      → Ran shared (graph_rows shared in_place (arange 0 n) x)

token_index-IsInitialized :
    (n : ℕ) (x : Index) → IsInitialized x → IsInitialized (token_index n x).0
unfolding token_index
token_index-IsInitialized n x h = elim (Bool-cases (leb n x.numel)) [
  | inl fits ↦
      subst (λ (r : Index × List ℕ). IsInitialized r.0)
        (sym (if_true (leb n x.numel) (extend n x, view (extend n x).at 0 n) (x, arange 0 n) fits))
        (extend-IsInitialized n x h)
  | inr long ↦
      subst (λ (r : Index × List ℕ). IsInitialized r.0)
        (sym (if_false (leb n x.numel) (extend n x, view (extend n x).at 0 n) (x, arange 0 n) long))
        h
]

fast_token_index-some :
    (width query_len : ℕ) (x y : Index) (xs : List ℕ)
    → fast_token_index width query_len x ≡ some (y, xs)
    → (y ≡ extend (min width query_len) x)
      × (xs ≡ view (extend (min width query_len) x).at 0 (min width query_len))
unfolding fast_token_index
fast_token_index-some width query_len x y xs e = ground arith

graph_rows-IsInitialized :
    (shared in_place : Bool) (n : ℕ) (x : Index)
    → (in_place ≡ true → shared ≡ false)
    → IsInitialized x
    → IsInitialized (graph_rows shared in_place (arange 0 n) x)
unfolding graph_rows
graph_rows-IsInitialized true true n x own h = let e : true ≡ false = own refl in cc
graph_rows-IsInitialized false true n x own h = h
graph_rows-IsInitialized true false n x own h =
    λ i lt. copy-arange n x.initialized x.at h i (omega (arith, length-arange 0 n))
graph_rows-IsInitialized false false n x own h =
    λ i lt. copy-arange n x.initialized x.at h i (omega arith)

placeholder-keeps :
    (rows : ℕ) (x : Index) → IsInitialized x → IsInitialized (placeholder_rows rows x)
unfolding placeholder_rows
placeholder-keeps rows x h i lt = write_arange-keeps 0 rows i x.at (h i lt)

init_rows-IsInitialized :
    (shared : Bool) (rows : ℕ) (x : Index)
    → IsInitialized x
    → IsInitialized (init_rows shared rows x)
unfolding init_rows
init_rows-IsInitialized true rows x h i lt = elim (Bool-cases (ltb i rows)) [
  | inl new' ↦ write_arange-at 0 rows i x.at (λ lt. absurd (omega arith)) (ground arith)
  | inr old ↦ write_arange-keeps 0 rows i x.at (h i (ground arith))
]
init_rows-IsInitialized false rows x h i lt =
    write_arange-at 0 rows i x.at (λ lt. absurd (omega arith)) lt

Ran-IsInitialized : (shared : Bool) {x : Index} → Ran shared x → IsInitialized x
Ran-IsInitialized shared (new {x} e) = λ i lt. absurd (omega arith)
Ran-IsInitialized shared (init {x} rows r) =
    init_rows-IsInitialized shared rows x (Ran-IsInitialized shared r)
Ran-IsInitialized shared (placeholder {x} rows r) =
    placeholder-keeps rows x (Ran-IsInitialized shared r)
Ran-IsInitialized shared (took {x} n r) = token_index-IsInitialized n x (Ran-IsInitialized shared r)
Ran-IsInitialized shared (took_fast {x} {y} width query_len xs e r) =
    subst IsInitialized (sym (fast_token_index-some width query_len x y xs e).0)
      (extend-IsInitialized (min width query_len) x (Ran-IsInitialized shared r))
Ran-IsInitialized shared (graph {x} in_place n own r) =
    graph_rows-IsInitialized shared in_place n x own (Ran-IsInitialized shared r)

extended-view : (n : ℕ) (x : Index) → IsInitialized x → view (extend n x).at 0 n ≡ arange 0 n
extended-view n x h =
    view-arange (extend n x).at 0 n (λ j le lt. extend-IsArange n x h j (omega arith))

both_arange :
    (test : Bool) (n : ℕ) (x : Index)
    → IsInitialized x
    → (if◌then◌else◌ {A = Index × List ℕ} test
        (extend n x, view (extend n x).at 0 n)
        (x, arange 0 n)).1
      ≡ arange 0 n
both_arange true n x h = extended-view n x h
both_arange false n x h = refl

-- Whatever builds came before, the token indices of a batch are those of torch.arange: the part of
-- the buffer that is not written again already holds them, for a buffer of one builder and for one
-- that all share; a fast build that has indices has those of the smaller of the width and the
-- query.
pub token_index-arange :
    (shared : Bool) (x : Index)
    → Ran shared x
    → ((n : ℕ) → (token_index n x).1 ≡ arange 0 n)
      × ((width query_len : ℕ) (y : Index) (xs : List ℕ)
          → fast_token_index width query_len x ≡ some (y, xs)
          → xs ≡ arange 0 (min width query_len))
unfolding token_index
token_index-arange shared x r =
    let h = Ran-IsInitialized shared r in
    (
      λ n. both_arange (leb n x.numel) n x h,
      λ width query_len y xs e.
          (fast_token_index-some width query_len x y xs e).1
          ∙ extended-view (min width query_len) x h,
    )
