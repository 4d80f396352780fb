-- ===== src/Flash/Pages/View.antt =====
-- The dense view of consecutive pages against the copying loop.
use v100_skinny_unify.Prelude.{
  ℕ, zero, suc, ◌+◌, ◌*◌, ◌/◌, ◌%◌, ◌<◌, ◌≤◌, ◌≡◌, refl, sym, ap, ◌∙◌, true, List, [], ◌∷◌, arith,
}
use native.Mathlib.Nat.{div-add-mod'}
use v100_skinny_unify.Prelude.Division.{div-lt}
use v100_skinny_unify.Prelude.Lists.{length, get_or, take}
use v100_skinny_unify.Prelude.Int.{ℤ, pos, negsuc}
use v100_skinny_unify.Flash.Pages.{cdiv_int, page_index, consecutive, start_of, contiguous_view}
use v100_skinny_unify.Flash.Pages.Extract.{token, cdiv_covers}

consecutive-at :
    (first i j : ℕ) (blocks : List ℤ)
    → consecutive first i blocks ≡ true
    → j < length blocks
    → get_or blocks j (pos 0) ≡ pos (first + (i + j))
unfolding consecutive
consecutive-at first i j [] h lt = absurd (omega arith)
consecutive-at first i j (negsuc n ∷ blocks) h lt = cc
consecutive-at first i zero (pos n ∷ blocks) h lt = ground arith
consecutive-at first i (suc j) (pos n ∷ blocks) h lt =
    consecutive-at first (i + 1) j blocks (ground arith) (omega arith) ∙ ap pos (omega arith)

-- Where a start is found, the blocks are the pages from there on.
start_of-at :
    (blocks : List ℤ) (start j : ℕ)
    → start_of blocks ≡ pos start
    → j < length blocks
    → get_or blocks j (pos 0) ≡ pos (start + j)
unfolding start_of
start_of-at [] start j h lt = absurd (omega arith)
start_of-at (negsuc n ∷ blocks) start j h lt = cc
start_of-at (pos first ∷ blocks) start zero h lt = ground arith
start_of-at (pos first ∷ blocks) start (suc j) h lt =
    ground (arith, consecutive-at first 1 j blocks)

length-take_all : {A : Type 0} (n : ℕ) (xs : List A) → n ≤ length xs → length (take n xs) ≡ n
length-take_all zero xs h = refl
length-take_all (suc n) [] h = absurd (omega arith)
length-take_all (suc n) (x ∷ xs) h = omega (arith, length-take_all n xs (omega arith))

get_or-take :
    {A : Type 0} (n j : ℕ) (xs : List A) (d : A) → j < n → get_or (take n xs) j d ≡ get_or xs j d
get_or-take zero j xs d h = absurd (omega arith)
get_or-take (suc n) j [] d h = refl
get_or-take (suc n) zero (x ∷ xs) d h = refl
get_or-take (suc n) (suc j) (x ∷ xs) d h = get_or-take n j xs d (omega arith)

module _ {V : Type 0} (pages block_size : ℕ) (cache : ℕ → V) where
  -- A token of the dense view is that of the page table.
  pub view-token :
      (row : List ℤ) (seq_len start i : ℕ)
      → 0 < block_size
      → cdiv_int seq_len block_size ≤ length row
      → start_of (take (cdiv_int seq_len block_size) row) ≡ pos start
      → i < seq_len
      → contiguous_view block_size cache start i ≡ token pages block_size cache row i
  view-token row seq_len start i some_slot covered found lt =
      let n = cdiv_int seq_len block_size in
      let block = i / block_size in
      let inside : block < n =
        div-lt some_slot (omega (arith, cdiv_covers seq_len block_size some_slot)) in
      let page : get_or row block (pos 0) ≡ pos (start + block) =
        sym (get_or-take n block row (pos 0) inside)
        ∙ start_of-at (take n row) start block found
            (omega (arith, length-take_all n row covered)) in
      let whole : block * block_size + i % block_size ≡ i = div-add-mod' i block_size in
      ap cache (omega arith)
      ∙ sym (ap (λ z. cache (page_index pages z * block_size + i % block_size)) page)
