-- ===== src/Flash/Pages.antt =====
-- The paged KV cache of fork_patches/flash_attn_v100.py: `_contiguous_paged_start_block` with its
-- cache of start blocks, the dense view of `_contiguous_paged_kv_view`, and the copying loop of
-- `_extract_contiguous_kv_from_paged_cache`. A cache of pages is the function from token slots, block
-- after block, to what a slot holds (the keys or the values of all heads).
pub mod Extract
pub mod View
pub mod Starts
use v100_skinny_unify.Prelude.{
  ℕ, zero, suc, ◌+◌, ◌-◌, ◌*◌, ◌/◌, ◌%◌, min, Bool, true, false, Option, none, some, List, [], ◌∷◌,
  ltb, leb, ◌==◌, ◌&&◌, ◌||◌, not, if◌then◌else◌,
}
use v100_skinny_unify.Prelude.Lists.{length, get_elem?, get_or, take}
use v100_skinny_unify.Prelude.Int.{ℤ, pos, negsuc}
use v100_skinny_unify.Tensor.{for_range}

-- _cdiv_int
unfoldable pub cdiv_int : ℕ → ℕ → ℕ
cdiv_int a b = (a + b - 1) / b

-- A subscript of an array of `size` pages, where a negative one counts from the end.
abbrev pub page_index : ℕ → ℤ → ℕ
page_index size (pos n) = n
page_index size (negsuc n) = size - 1 - n

module _ {V : Type 0} (pages : ℕ) (block_size : ℕ) (cache : ℕ → V) where
  -- out[off : off + n] = values[:n]
  unfoldable pub copy_rows : ℕ → ℕ → (ℕ → V) → (ℕ → V) → ℕ → V
  copy_rows off n values out i = if leb off i && ltb i (off + n) then values (i - off) else out i

  -- The body of the loop over the blocks of a sequence, on `token_offset` and the output.
  unfoldable pub copy_block : List ℤ → ℕ → ℕ → ℕ × (ℕ → V) → ℕ × (ℕ → V)
  unfolding copy_rows
  copy_block row seq_len block_idx (off, out) =
      let physical = page_index pages (get_or row block_idx (pos 0)) in
      let start_token = block_idx * block_size in
      let n = min (start_token + block_size) seq_len - start_token in
      (off + n, copy_rows off n (λ j. cache (physical * block_size + j)) out)

  unfoldable pub extract_sequence : List ℤ → ℕ → ℕ × (ℕ → V) → ℕ × (ℕ → V)
  unfolding for_range cdiv_int copy_block
  extract_sequence row seq_len s =
      if seq_len == 0 then s else for_range (cdiv_int seq_len block_size) (copy_block row seq_len) s

  -- The loop over the batch.
  unfoldable pub extract_contiguous_kv : List (List ℤ × ℕ) → ℕ × (ℕ → V) → ℕ × (ℕ → V)
  unfolding extract_sequence
  extract_contiguous_kv [] s = s
  extract_contiguous_kv ((row, seq_len) ∷ batch) s =
      extract_contiguous_kv batch (extract_sequence row seq_len s)

-- blocks == blocks[0] + arange(num_blocks), from place i on
unfoldable pub consecutive : ℕ → ℕ → List ℤ → Bool
consecutive first i [] = true
consecutive first i (pos n ∷ blocks) = n == first + i && consecutive first (i + 1) blocks
consecutive first i (negsuc n ∷ blocks) = false

-- What is stored in the cache of start blocks for the blocks of a sequence: -1 if they are not
-- consecutive pages.
unfoldable pub start_of : List ℤ → ℤ
unfolding consecutive
start_of [] = negsuc 0
start_of (pos first ∷ blocks) = if consecutive first 1 blocks then pos first else negsuc 0
start_of (negsuc n ∷ blocks) = negsuc 0

pub record Key : Type 0 where
  pub seq_idx : ℕ
  pub seq_len : ℕ
  pub block_size : ℕ
  pub row_ptr : ℕ
  pub cache_ptr : ℕ

abbrev pub same_key : Key → Key → Bool
same_key a b =
    a.seq_idx == b.seq_idx
    && a.seq_len == b.seq_len
    && a.block_size == b.block_size
    && a.row_ptr == b.row_ptr
    && a.cache_ptr == b.cache_ptr

abbrev pub Starts : Type 0
Starts = List (Key × ℤ)

unfoldable pub lookup : Key → Starts → Option ℤ
lookup key [] = none
lookup key ((other, start) ∷ starts) = if same_key other key then some start else lookup key starts

-- The two tests at the end.
abbrev pub in_cache : ℕ → ℕ → ℤ → Option (ℕ × ℕ)
in_cache pages num_blocks (negsuc n) = none
in_cache pages num_blocks (pos start) =
    if ltb pages (start + num_blocks) then none else some (start, num_blocks)

abbrev pub remember : Key → ℤ → Option ℤ → Starts → Starts × ℤ
remember key start (some old) starts = (starts, old)
remember key start none starts = ((key, start) ∷ starts, start)

unfoldable pub contiguous_start_block : ℕ → List ℤ → Key → Starts → Starts × Option (ℕ × ℕ)
unfolding start_of lookup cdiv_int
contiguous_start_block pages row key starts =
    let num_blocks = cdiv_int key.seq_len key.block_size in
    if key.seq_len == 0 || key.block_size == 0 || (num_blocks == 0 || ltb (length row) num_blocks)
    then (starts, none)
    else (let (starts', start) =
          remember key (start_of (take num_blocks row)) (lookup key starts) starts in
        (starts', in_cache pages num_blocks start))

-- key_cache[start_block:end_block].reshape(-1, …)[:seq_len], by token
abbrev pub contiguous_view {ℓ} : {V : Type ℓ} → ℕ → (ℕ → V) → ℕ → ℕ → V
contiguous_view block_size cache start_block i = cache (start_block * block_size + i)
