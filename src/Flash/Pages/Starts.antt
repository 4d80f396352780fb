-- ===== src/Flash/Pages/Starts.antt =====
-- The cache of start blocks changes no answer.
use v100_skinny_unify.Prelude.{
  ℕ, ◌+◌, ◌<◌, ◌≤◌, ◌≡◌, refl, sym, ap, ap₂, ◌∙◌, Bool, true, false, Option, none, some, List, [],
  ◌∷◌, ltb, ◌==◌, ◌||◌, arith, if◌then◌else◌,
}
use v100_skinny_unify.Prelude.Lists.{length, take}
use v100_skinny_unify.Prelude.Int.{ℤ, pos, negsuc}
use v100_skinny_unify.Flash.Pages.{
  cdiv_int, extract_sequence, start_of, Key, same_key, Starts, lookup, in_cache, remember,
  contiguous_start_block, contiguous_view,
}
use v100_skinny_unify.Flash.Pages.Extract.{extract_sequence-IsCopied}
use v100_skinny_unify.Flash.Pages.View.{view-token}

at_zero : (i : ℕ) → i ≡ 0 + i
at_zero i = omega arith

in_cache-some :
    (pages m : ℕ) (z : ℤ) (start n : ℕ)
    → in_cache pages m z ≡ some (start, n)
    → (z ≡ pos start) × (n ≡ m) × (start + n ≤ pages)
in_cache-some pages m (negsuc i) start n e = cc
in_cache-some pages m (pos i) start n e = ground arith

-- The rows of the block table, by the address of a row.
module _ (rows : ℕ → List ℤ) where
  abbrev pub start_for : Key → ℤ
  start_for key = start_of (take (cdiv_int key.seq_len key.block_size) (rows key.row_ptr))

  -- Every remembered start is that of the blocks of its sequence.
  abbrev pub IsCoherent : Starts → Type 0
  IsCoherent [] = Unit {0}
  IsCoherent ((key, start) ∷ starts) = (start ≡ start_for key) × IsCoherent starts

  same_key-start : (a b : Key) → same_key a b ≡ true → start_for a ≡ start_for b
  same_key-start a b h =
      ap₂ (λ n r. start_of (take n (rows r))) (ap₂ cdiv_int (ground arith) (ground arith))
        (ground arith)

  lookup-IsCoherent :
      (key : Key) (starts : Starts) (start : ℤ)
      → IsCoherent starts
      → lookup key starts ≡ some start
      → start ≡ start_for key
  unfolding lookup
  lookup-IsCoherent key [] start h e = cc
  lookup-IsCoherent key ((other, old) ∷ starts) start h e =
      ground (arith, same_key-start other key, lookup-IsCoherent key starts start h.1)

  remember-IsCoherent :
      (key : Key) (o : Option ℤ) (starts : Starts)
      → lookup key starts ≡ o
      → IsCoherent starts
      → IsCoherent (remember key (start_for key) o starts).0
        × ((remember key (start_for key) o starts).1 ≡ start_for key)
  remember-IsCoherent key none starts e h = ((refl, h), refl)
  remember-IsCoherent key (some old) starts e h = (h, lookup-IsCoherent key starts old h e)

  -- What a call returns, whatever is remembered.
  abbrev pub uncached : ℕ → Key → Option (ℕ × ℕ)
  uncached pages key =
      let num_blocks = cdiv_int key.seq_len key.block_size in
      if key.seq_len == 0
        || key.block_size == 0
        || (num_blocks == 0 || ltb (length (rows key.row_ptr)) num_blocks)
      then none
      else in_cache pages num_blocks (start_for key)

  branch :
      (test : Bool) (x y : Starts × Option (ℕ × ℕ)) (u v : Option (ℕ × ℕ))
      → IsCoherent x.0 × (x.1 ≡ u)
      → IsCoherent y.0 × (y.1 ≡ v)
      → IsCoherent (if test then x else y).0 × ((if test then x else y).1 ≡ (if test then u else v))
  branch true x y u v p q = p
  branch false x y u v p q = q

  uncached-some :
      (pages : ℕ) (key : Key) (start n : ℕ)
      → uncached pages key ≡ some (start, n)
      → (0 < key.block_size)
        × (n ≡ cdiv_int key.seq_len key.block_size)
        × (n ≤ length (rows key.row_ptr))
        × (start_for key ≡ pos start)
        × (start + n ≤ pages)
  uncached-some pages key start n e =
      ground
        (arith, in_cache-some pages (cdiv_int key.seq_len key.block_size) (start_for key) start n)

  -- The cache of start blocks changes no answer: a call returns what it returns without it, and
  -- what it leaves in the cache is again the start of its key, as long as the rows at the addresses
  -- stay as they are.
  pub start_block-uncached :
      (pages : ℕ) (key : Key) (starts : Starts)
      → IsCoherent starts
      → let r = contiguous_start_block pages (rows key.row_ptr) key starts in
        IsCoherent r.0 × (r.1 ≡ uncached pages key)
  unfolding contiguous_start_block
  start_block-uncached pages key starts h =
      branch _ _ _ _ _ (h, refl)
        (let (kept, same) = remember-IsCoherent key (lookup key starts) starts refl h in
          (kept, ap (in_cache pages (cdiv_int key.seq_len key.block_size)) same))

  -- Where a call finds that the pages of a sequence stand one after another, they are pages of the
  -- cache, and the dense view from the first of them on is what the copying loop extracts by the
  -- block table, token for token, whatever starts were remembered, if these were right.
  pub view-extract :
      {V : Type 0} (pages : ℕ) (cache out : ℕ → V) (key : Key) (starts : Starts) (start n : ℕ)
      → IsCoherent starts
      → (contiguous_start_block pages (rows key.row_ptr) key starts).1 ≡ some (start, n)
      → (start + n ≤ pages)
        × ((i : ℕ)
            → i < key.seq_len
            → contiguous_view key.block_size cache start i
              ≡ (extract_sequence pages key.block_size cache
                    (rows key.row_ptr)
                    key.seq_len
                    (0, out)).1
                  i)
  view-extract pages cache out key starts start n h e =
      let row = rows key.row_ptr in
      let (some_slot, blocks, covered, found, inside) =
        uncached-some pages key start n (sym (start_block-uncached pages key starts h).1 ∙ e) in
      (
        inside,
        λ i lt.
            view-token pages key.block_size cache row key.seq_len start i some_slot (omega arith)
              found lt
            ∙ sym (
                ap (extract_sequence pages key.block_size cache row key.seq_len (0, out)).1
                  (at_zero i)
                ∙ (extract_sequence-IsCopied pages key.block_size cache row key.seq_len 0 out
                      some_slot).copied
                    i lt),
      )
