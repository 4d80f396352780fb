-- ===== src/Skinny/Prepack.antt =====
-- `_qpn_prepack` and `_qpn_unprepack` of fork_patches/marlin.py. Bytes are numbers below 256;
-- `x & 0xF`, `x >> 4` and `x << 4` on uint8 are written out. The first contents of a buffer
-- (`torch.empty`) are an argument.
pub mod Nibbles
pub mod Pack
pub mod Unpack
pub mod RoundTrip
pub mod Permutation
use v100_skinny_unify.Prelude.{
  ℕ, ◌+◌, ◌*◌, ◌/◌, ◌%◌, ◌^◌, bit_and, bit_or, Bool, Option, none, some, ◌==◌, ◌&&◌, if◌then◌else◌,
}
use v100_skinny_unify.Tensor.{Buf, Tensor, scatter}
use v100_skinny_unify.Skinny.Layout.{col, ncol, kidx, lane_cell, cell, chunk_size}

-- lo | (hi << 4)
unfoldable pub pack_byte : ℕ → ℕ → ℕ
pack_byte lo hi = bit_or lo (hi * 2 ^ 4 % 256)

-- torch.stack([codes & 0xF, codes >> 4], dim=-1).view(n, k)
unfoldable pub nibbles : Buf → Buf
nibbles codes i = if i % 2 == 0 then bit_and (codes (i / 2)) 15 else codes (i / 2) / 2 ^ 4

-- nb: the nibble that place j of a lane's fragment takes from the matrix.
unfoldable pub gathered : ℕ → Buf → ℕ → ℕ → ℕ → ℕ → ℕ
gathered k codes t g l j = nibbles codes (ncol t l * k + kidx g j)

-- qc[t0:t1] = nb[..., 0::2] | (nb[..., 1::2] << 4)
unfoldable pub prepack_codes : (tiles groups k : ℕ) → Buf → Buf → Buf
prepack_codes tiles groups k codes =
    scatter tiles groups (chunk_size groups) 8 (cell groups 8)
      λ t g l b. pack_byte (gathered k codes t g l (2 * b)) (gathered k codes t g l (2 * b + 1))

-- qs[t0:t1] = scales[ncol, g]
unfoldable pub prepack_scales : (tiles groups : ℕ) → Buf → Buf → Buf
prepack_scales tiles groups scales =
    scatter tiles groups (chunk_size groups) 1 (λ t g l _. lane_cell groups t g l)
      λ t g l _. scales (ncol t l * groups + g)

-- The two buffers, or `none` for a shape that the tiling does not divide. `codes` has the shape
-- [n][k2], `scales` the shape [n][k / 16].
unfoldable pub prepack : (n k2 : ℕ) (codes scales qc₀ qs₀ : Buf) → Option (Tensor × Tensor)
prepack n k2 codes scales qc₀ qs₀ =
    let k = k2 * 2 in
    let tiles = n / 32 in
    let groups = k / 16 in
    if n % 32 == 0 && k % 64 == 0
    then some (
      record { numel = tiles * groups * 32 * 8; at = prepack_codes tiles groups k codes qc₀ },
      record { numel = tiles * groups * 32; at = prepack_scales tiles groups scales qs₀ },
    )
    else none

-- nb_full[..., 0::2] = qc & 0xF; nb_full[..., 1::2] = qc >> 4
unfoldable pub split_nibble : ℕ → Buf → ℕ → ℕ → ℕ → ℕ → ℕ
split_nibble groups qc t g l j =
    let byte = qc (cell groups 8 t g l (j / 2)) in
    if j % 2 == 0 then bit_and byte 15 else byte / 2 ^ 4

-- nib_out[ncol, kidx] = nb_full
unfoldable pub unprepack_nibbles : (tiles groups k : ℕ) → Buf → Buf → Buf
unprepack_nibbles tiles groups k qc =
    scatter tiles groups (chunk_size groups) 16 (λ t g l j. ncol t l * k + kidx g j)
      (split_nibble groups qc)

-- scales_out[ncol, g] = qs
unfoldable pub unprepack_scales : (tiles groups : ℕ) → Buf → Buf → Buf
unprepack_scales tiles groups qs =
    scatter tiles groups (chunk_size groups) 1 (λ t g l _. ncol t l * groups + g)
      λ t g l _. qs (lane_cell groups t g l)

-- nib_out[:, 0::2] | (nib_out[:, 1::2] << 4): k is even, so byte i of the result is made of the
-- nibbles 2 i and 2 i + 1.
unfoldable pub join_nibbles : Buf → Buf
join_nibbles nib i = pack_byte (nib (2 * i)) (nib (2 * i + 1))

unfoldable pub unprepack : (n k : ℕ) (qc qs nib₀ scales₀ : Buf) → Buf × Buf
unprepack n k qc qs nib₀ scales₀ =
    let tiles = n / 32 in
    let groups = k / 16 in
    (
      join_nibbles (unprepack_nibbles tiles groups k qc nib₀),
      unprepack_scales tiles groups qs scales₀,
    )
