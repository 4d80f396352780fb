-- ===== src/Skinny/Prepack/Permutation.antt =====
-- `_qpn_prepack` after `_qpn_unprepack`: together with the round trip the other way, the packing
-- is a permutation of the nibbles and of the scales.
use v100_skinny_unify.Prelude.{
  ℕ, ◌+◌, ◌*◌, ◌/◌, ◌%◌, ◌<◌, ◌≡◌, ◌∙◌, sym, ap, ap₂, arith, ◌==◌, Bool-cases, inl, inr, some,
}
use mathlib.Core.Path.{subst}
use v100_skinny_unify.Prelude.Division.{offset_lt}
use v100_skinny_unify.Tensor.{Buf, Tensor}
use v100_skinny_unify.Skinny.Layout.{ncol, kidx, lane_cell, cell}
use v100_skinny_unify.Skinny.Layout.Inverse.{ncol-lt, kidx-lt}
use v100_skinny_unify.Skinny.Prepack.{
  pack_byte, nibbles, gathered, prepack, split_nibble, unprepack_nibbles, unprepack_scales,
  join_nibbles, unprepack,
}
use v100_skinny_unify.Skinny.Prepack.Nibbles.{IsBytes, pair_facts, byte_facts}
use v100_skinny_unify.Skinny.Prepack.Pack.{prepack_codes-cell, prepack_scales-cell}
use v100_skinny_unify.Skinny.Prepack.Unpack.{
  unprepack_nibbles-place, unprepack_scales-place, Place, address-Place,
}
use v100_skinny_unify.Skinny.Prepack.RoundTrip.{
  prepack-IsPrepacked, even_half, odd_half, nibbles-even, nibbles-odd,
}

-- A nibble of the joined bytes is the nibble that was joined.
nibbles-join_nibbles :
    (nib : Buf) (a : ℕ)
    → nib (2 * (a / 2)) < 16
    → nib (2 * (a / 2) + 1) < 16
    → nibbles (join_nibbles nib) a ≡ nib a
unfolding join_nibbles
nibbles-join_nibbles nib a lo hi =
    let pair = pair_facts (nib (2 * (a / 2))) (nib (2 * (a / 2) + 1)) lo hi in
    elim (Bool-cases (a % 2 == 0)) [
      | inl e ↦
          ap (nibbles (join_nibbles nib)) (sym (even_half a e))
          ∙ nibbles-even (join_nibbles nib) (a / 2)
          ∙ pair.low-pack_byte
          ∙ ap nib (even_half a e)
      | inr e ↦
          ap (nibbles (join_nibbles nib)) (sym (odd_half a e))
          ∙ nibbles-odd (join_nibbles nib) (a / 2)
          ∙ pair.high-pack_byte
          ∙ ap nib (odd_half a e)
    ]

split_nibble-lt :
    (groups : ℕ) (qc : Buf) (t g l j : ℕ) → IsBytes qc → split_nibble groups qc t g l j < 16
unfolding split_nibble
split_nibble-lt groups qc t g l j bytes =
    let c = cell groups 8 t g l (j / 2) in ground (arith, byte_facts (qc c) (bytes c))

-- The two nibbles of a byte of the buffer, packed again.
split_nibble-pair :
    (groups : ℕ) (qc : Buf) (t g l b : ℕ)
    → IsBytes qc
    → pack_byte (split_nibble groups qc t g l (2 * b)) (split_nibble groups qc t g l (2 * b + 1))
      ≡ qc (cell groups 8 t g l b)
unfolding split_nibble
split_nibble-pair groups qc t g l b bytes =
    let half : 2 * b / 2 ≡ b = omega arith in
    let even : 2 * b % 2 ≡ 0 = omega arith in
    let half' : (2 * b + 1) / 2 ≡ b = omega arith in
    let odd : (2 * b + 1) % 2 ≡ 1 = omega arith in
    rw (half, even, half', odd)
      (byte_facts (qc (cell groups 8 t g l b)) (bytes (cell groups 8 t g l b))).pack_byte_lem

-- The unpacked nibbles are nibbles.
unprepack_nibbles-lt :
    (n k : ℕ) (qc nib₀ : Buf) (a : ℕ)
    → IsBytes qc
    → Place n k a
    → unprepack_nibbles (n / 32) (k / 16) k qc nib₀ a < 16
unprepack_nibbles-lt n k qc nib₀ a bytes p =
    subst (λ x. unprepack_nibbles (n / 32) (k / 16) k qc nib₀ x < 16) p.address
      (rw
        (unprepack_nibbles-place (n / 32) k nib₀ p.tile p.group p.lane p.tile_lt p.group_lt
          p.lane_lt qc p.slot p.slot_lt)
        (split_nibble-lt (k / 16) qc p.tile p.group p.lane p.slot bytes))

-- Gathering from the unpacked codes gives the nibbles of the buffer.
gathered-unprepack :
    (n k2 : ℕ) (qc nib₀ : Buf) (t g l j : ℕ)
    → IsBytes qc
    → n % 32 ≡ 0
    → k2 * 2 % 16 ≡ 0
    → t < n / 32
    → g < k2 * 2 / 16
    → l < 32
    → j < 16
    → gathered
        (k2 * 2)
        (join_nibbles (unprepack_nibbles (n / 32) (k2 * 2 / 16) (k2 * 2) qc nib₀))
        t
        g
        l
        j
      ≡ split_nibble (k2 * 2 / 16) qc t g l j
unfolding gathered
gathered-unprepack n k2 qc nib₀ t g l j bytes rows columns ht hg hl hj =
    let k = k2 * 2 in
    let a = ncol t l * k + kidx g j in
    let inside : a < n * k = offset_lt (ncol-lt t l n hl ht) (kidx-lt g j k hj hg) in
    let small = λ (x : ℕ) (hx : x < n * k).
      unprepack_nibbles-lt n k qc nib₀ x bytes
        (address-Place n k x rows columns (grind arith) hx) in
    nibbles-join_nibbles (unprepack_nibbles (n / 32) (k / 16) k qc nib₀) a
      (small (2 * (a / 2)) (omega arith)) (small (2 * (a / 2) + 1) (omega arith))
    ∙ unprepack_nibbles-place (n / 32) k nib₀ t g l ht hg hl qc j hj

-- Packing undoes unpacking: for a shape that `_qpn_prepack` accepts and a buffer of bytes,
-- unpacking buffers of the shapes [tiles][groups][32][8] and [tiles][groups][32] and packing the
-- result gives back every byte and every scale of them.
pub prepack-unprepack :
    (n k2 : ℕ) (qc qs nib₀ scales₀ qc₀ qs₀ : Buf) {qc' qs' : Tensor}
    → IsBytes qc
    → prepack n k2
        (unprepack n (k2 * 2) qc qs nib₀ scales₀).0
        (unprepack n (k2 * 2) qc qs nib₀ scales₀).1
        qc₀
        qs₀
      ≡ some (qc', qs')
    → (t g l b : ℕ) → t < n / 32
    → g < k2 * 2 / 16
    → l < 32
    → b < 8
    → (qc'.at (cell (k2 * 2 / 16) 8 t g l b) ≡ qc (cell (k2 * 2 / 16) 8 t g l b))
      × (qs'.at (lane_cell (k2 * 2 / 16) t g l) ≡ qs (lane_cell (k2 * 2 / 16) t g l))
unfolding unprepack
prepack-unprepack n k2 qc qs nib₀ scales₀ qc₀ qs₀ bytes h t g l b ht hg hl hb =
    let k = k2 * 2 in
    let groups = k / 16 in
    let codes = join_nibbles (unprepack_nibbles (n / 32) groups k qc nib₀) in
    let scales = unprepack_scales (n / 32) groups qs scales₀ in
    let f = prepack-IsPrepacked n k2 codes scales qc₀ qs₀ h in
    let nibble = λ (j : ℕ) (hj : j < 16).
      gathered-unprepack n k2 qc nib₀ t g l j bytes f.rows (omega (arith, f.columns)) ht hg hl hj in
    rw (f.codes_at, f.scales_at)
      (
        prepack_codes-cell (n / 32) groups qc₀ t g l ht hg hl k b codes hb
            ∙ ap₂ pack_byte (nibble (2 * b) (omega arith)) (nibble (2 * b + 1) (omega arith))
            ∙ split_nibble-pair groups qc t g l b bytes,
        prepack_scales-cell (n / 32) groups qs₀ t g l ht hg hl scales
            ∙ unprepack_scales-place (n / 32) groups qs scales₀ t g l ht hg hl,
      )
