-- ===== src/Tensor.antt =====
-- Tensors by their storage: a contiguous tensor is a row-major buffer, so that `view` and
-- `contiguous` leave it as it is, and a subscript is an offset. Loops over `range` are folds.
pub mod Fills
use v100_skinny_unify.Prelude.{ℕ, zero, suc, ◌+◌, ◌-◌, min, ◌*◌, ◌/◌, Bool, ◌==◌, if◌then◌else◌}

-- The cells of a storage. What `torch.empty` leaves in one is any such function.
abbrev pub Buf : Type 0
Buf = ℕ → ℕ

unfoldable pub write : Buf → ℕ → ℕ → Buf
write m a v b = if b == a then v else m b

-- for i in range(n)
unfoldable pub for_range {ℓ} : {S : Type ℓ} → ℕ → (ℕ → S → S) → S → S
for_range zero body s = s
for_range (suc n) body s = body n (for_range n body s)

-- for i in range(0, n, step), for a positive step
unfoldable pub for_step {ℓ} : {S : Type ℓ} → ℕ → ℕ → (ℕ → S → S) → S → S
unfolding for_range
for_step n step body s = for_range ((n + step - 1) / step) (λ i. body (i * step)) s

-- A tensor with one dimension: its number of elements and its storage.
pub record Tensor : Type 0 where
  pub numel : ℕ
  pub at : Buf

-- torch.empty(0): what a released or absent tensor is replaced by.
abbrev pub empty : Tensor
empty = record { numel = 0; at = λ _. 0 }

-- The body at every index below `total`, in chunks: the loop
-- `for t0 in range(0, total, chunk): t1 = min(t0 + chunk, total)`, over t0 ≤ t < t1.
unfoldable pub for_chunks : ℕ → ℕ → (ℕ → Buf → Buf) → Buf → Buf
unfolding for_step
for_chunks total chunk body =
    for_step total chunk
      λ t0. let t1 = min (t0 + chunk) total in for_range (t1 - t0) (λ i. body (t0 + i))

-- `out[index] = value` for tensors of the shape [tiles][groups][32][width], a chunk of tiles at
-- a time: `addr` is the offset that the index selects in `out`.
unfoldable pub scatter : (tiles groups chunk width : ℕ) (addr val : ℕ → ℕ → ℕ → ℕ → ℕ) → Buf → Buf
unfolding for_chunks write
scatter tiles groups chunk width addr val = for_chunks tiles chunk λ t.
    for_range groups
      λ g. for_range 32 λ l. for_range width λ j m. write m (addr t g l j) (val t g l j)
