-- ===== src/Flash/Pages/Extract.antt =====
-- The copying loop puts the tokens of a batch one after another.
use v100_skinny_unify.Prelude.{
  ◌==◌, if_false, ℕ, zero, suc, ◌+◌, ◌-◌, ◌*◌, ◌/◌, ◌%◌, min, ◌<◌, ◌≤◌, ◌≡◌, refl, sym, ap, ap₂,
  ◌∙◌, inl, inr, List, [], ◌∷◌, ltb, leb, ◌&&◌, if_true, arith, Bool-cases,
}
use native.Mathlib.Nat.{lt-div-mul-add}
use mathlib.Core.Path.{subst}
use v100_skinny_unify.Prelude.Division.{row_of_offset, column_of_offset}
use v100_skinny_unify.Prelude.Lists.{get_or}
use v100_skinny_unify.Prelude.Int.{ℤ, pos}
use v100_skinny_unify.Tensor.{for_range}
use v100_skinny_unify.Flash.Pages.{
  cdiv_int, page_index, copy_rows, copy_block, extract_sequence, extract_contiguous_kv,
}

-- The blocks cover the tokens.
pub cdiv_covers : (a b : ℕ) → 0 < b → a ≤ cdiv_int a b * b
unfolding cdiv_int
cdiv_covers a b h = let top : a + b - 1 < cdiv_int a b * b + b = lt-div-mul-add h in omega arith

-- seq_lens.sum()
abbrev pub total_tokens : List (List ℤ × ℕ) → ℕ
total_tokens [] = 0
total_tokens ((row, seq_len) ∷ batch) = seq_len + total_tokens batch

module _ {V : Type 0} (pages block_size : ℕ) (cache : ℕ → V) where
  -- What token i of a sequence has in the cache.
  abbrev pub token : List ℤ → ℕ → V
  token row i =
      cache (page_index pages (get_or row (i / block_size) (pos 0)) * block_size + i % block_size)

  -- `done` tokens have been copied from the offset `off` on.
  pub record IsCopied (row : List ℤ) (off : ℕ) (out : ℕ → V) (done : ℕ) (s : ℕ × (ℕ → V))
      : Type 0 where
    pub offset : s.0 ≡ off + done
    pub copied : (i : ℕ) → i < done → s.1 (off + i) ≡ token row i
    pub kept : (i : ℕ) → i < off → s.1 i ≡ out i

  token-at :
      (row : List ℤ) (b j : ℕ)
      → j < block_size
      → token row (b * block_size + j)
        ≡ cache (page_index pages (get_or row b (pos 0)) * block_size + j)
  token-at row b j inside =
      ap₂ (λ q r. cache (page_index pages (get_or row q (pos 0)) * block_size + r))
        (row_of_offset b j inside) (column_of_offset b j inside)

  copy_rows-new :
      (off n j : ℕ) (values out : ℕ → V)
      → j < n
      → copy_rows pages block_size cache off n values out (off + j) ≡ values j
  unfolding copy_rows
  copy_rows-new off n j values out h =
      if_true (leb off (off + j) && ltb (off + j) (off + n)) _ _ (ground arith)
      ∙ ap values (omega arith)

  copy_block-offset :
      (row : List ℤ) (seq_len off b : ℕ) (s : ℕ × (ℕ → V))
      → s.0 ≡ off + min (b * block_size) seq_len
      → (copy_block pages block_size cache row seq_len b s).0
        ≡ off + min (suc b * block_size) seq_len
  unfolding copy_block
  copy_block-offset row seq_len off b s h = omega arith

  copy_block-old :
      (row : List ℤ) (seq_len b i : ℕ) (s : ℕ × (ℕ → V))
      → i < s.0
      → (copy_block pages block_size cache row seq_len b s).1 i ≡ s.1 i
  unfolding copy_block copy_rows
  copy_block-old row seq_len b i s h = ground arith

  copy_block-new :
      (row : List ℤ) (seq_len b j : ℕ) (s : ℕ × (ℕ → V))
      → j < min (b * block_size + block_size) seq_len - b * block_size
      → (copy_block pages block_size cache row seq_len b s).1 (s.0 + j)
        ≡ cache (page_index pages (get_or row b (pos 0)) * block_size + j)
  unfolding copy_block copy_rows
  copy_block-new row seq_len b j s h =
      copy_rows-new s.0 (min (b * block_size + block_size) seq_len - b * block_size) j
        (λ t. cache (page_index pages (get_or row b (pos 0)) * block_size + t)) s.1 h

  -- One more block is copied.
  copy_block-IsCopied :
      (row : List ℤ) (seq_len off b : ℕ) (out : ℕ → V) (s : ℕ × (ℕ → V))
      → 0 < block_size
      → IsCopied row off out (min (b * block_size) seq_len) s
      → IsCopied row off out
          (min (suc b * block_size) seq_len)
          (copy_block pages block_size cache row seq_len b s)
  copy_block-IsCopied row seq_len off b out s some_slot h = record {
    offset = copy_block-offset row seq_len off b s h.offset;
    copied = λ i lt. elim (Bool-cases (ltb i (min (b * block_size) seq_len))) [
      | inl old ↦
          copy_block-old row seq_len b (off + i) s (ground (arith, h.offset))
          ∙ h.copied i (ground arith)
      | inr new ↦
          let j = i - b * block_size in
          let at : i ≡ b * block_size + j = ground arith in
          let where_it_is : off + i ≡ s.0 + j = ground (arith, h.offset) in
          ap (copy_block pages block_size cache row seq_len b s).1 where_it_is
          ∙ copy_block-new row seq_len b j s (ground arith)
          ∙ sym (ap (token row) at ∙ token-at row b j (ground arith))
    ];
    kept = λ i lt. copy_block-old row seq_len b i s (omega (arith, h.offset)) ∙ h.kept i lt;
  }

  blocks-IsCopied :
      (row : List ℤ) (seq_len off n : ℕ) (out : ℕ → V)
      → 0 < block_size
      → IsCopied row off out
          (min (n * block_size) seq_len)
          (for_range n (copy_block pages block_size cache row seq_len) (off, out))
  unfolding for_range
  blocks-IsCopied row seq_len off zero out some_slot = record {
    offset = omega arith;
    copied = λ i lt. absurd (omega arith);
    kept = λ i lt. refl;
  }
  blocks-IsCopied row seq_len off (suc n) out some_slot =
      copy_block-IsCopied row seq_len off n out _ some_slot
        (blocks-IsCopied row seq_len off n out some_slot)

  pub extract_sequence-IsCopied :
      (row : List ℤ) (seq_len off : ℕ) (out : ℕ → V)
      → 0 < block_size
      → IsCopied row off out seq_len
          (extract_sequence pages block_size cache row seq_len (off, out))
  unfolding extract_sequence
  extract_sequence-IsCopied row seq_len off out some_slot =
      let loop =
        for_range (cdiv_int seq_len block_size) (copy_block pages block_size cache row seq_len)
          (off, out) in
      elim (Bool-cases (seq_len == 0)) [
        | inl nothing ↦
            subst (IsCopied row off out seq_len)
              (sym (if_true (seq_len == 0) (off, out) loop nothing))
              (record {
                offset = ground arith;
                copied = λ i lt. absurd (ground arith);
                kept = λ i lt. refl;
              })
        | inr some_token ↦
            subst (IsCopied row off out seq_len)
              (sym (if_false (seq_len == 0) (off, out) loop some_token))
              (subst (λ n. IsCopied row off out n loop)
                (omega (arith, cdiv_covers seq_len block_size some_slot))
                (blocks-IsCopied row seq_len off (cdiv_int seq_len block_size) out some_slot))
      ]

  -- Every token of the batch is at its place, the sequences one after another from `off` on.
  abbrev pub AreCopied : List (List ℤ × ℕ) → ℕ → (ℕ → V) → Type 0
  AreCopied [] off out = Unit {0}
  AreCopied ((row, seq_len) ∷ batch) off out =
      ((i : ℕ) → i < seq_len → out (off + i) ≡ token row i) × AreCopied batch (off + seq_len) out

  extract-kept :
      (batch : List (List ℤ × ℕ)) (s : ℕ × (ℕ → V))
      → 0 < block_size
      → (i : ℕ) → i < s.0
      → (extract_contiguous_kv pages block_size cache batch s).1 i ≡ s.1 i
  unfolding extract_contiguous_kv
  extract-kept [] s some_slot i lt = refl
  extract-kept ((row, seq_len) ∷ batch) s some_slot i lt =
      let one = extract_sequence-IsCopied row seq_len s.0 s.1 some_slot in
      extract-kept batch (extract_sequence pages block_size cache row seq_len s) some_slot i
        (omega (arith, one.offset))
      ∙ one.kept i lt

  -- The slow path copies a whole batch: from the offset on, the tokens of each sequence follow those
  -- of the sequence before, each read from its own page, and the offset ends after the last of them.
  pub extract-AreCopied :
      (batch : List (List ℤ × ℕ)) (off : ℕ) (out : ℕ → V)
      → 0 < block_size
      → let s = extract_contiguous_kv pages block_size cache batch (off, out) in
        (s.0 ≡ off + total_tokens batch) × AreCopied batch off s.1
  unfolding extract_contiguous_kv
  extract-AreCopied [] off out some_slot = (omega arith, tt)
  extract-AreCopied ((row, seq_len) ∷ batch) off out some_slot =
      let one = extract_sequence-IsCopied row seq_len off out some_slot in
      let s = extract_sequence pages block_size cache row seq_len (off, out) in
      let (ends, rest) = extract-AreCopied batch s.0 s.1 some_slot in
      (
        omega (arith, one.offset),
        (
          λ i lt.
              extract-kept batch s some_slot (off + i) (omega (arith, one.offset))
              ∙ one.copied i lt,
          subst (λ o. AreCopied batch o (extract_contiguous_kv pages block_size cache batch s).1)
              one.offset rest,
        ),
      )
