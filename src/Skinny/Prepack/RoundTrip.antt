-- ===== src/Skinny/Prepack/RoundTrip.antt =====
-- `_qpn_unprepack` after `_qpn_prepack`, and the other way round.
use v100_skinny_unify.Prelude.{
  ℕ, ◌+◌, ◌*◌, ◌/◌, ◌%◌, ◌^◌, ◌<◌, ◌≡◌, ◌∙◌, ap, Bool-cases, true, false, inl, inr, arith, bit_and,
  some, ◌==◌, if◌then◌else◌,
}
use mathlib.Core.Path.{subst}
use v100_skinny_unify.Tensor.{Buf, Tensor}
use v100_skinny_unify.Skinny.Layout.Inverse.{lane_of, lane_facts, ncol-lane_of}
use v100_skinny_unify.Skinny.Prepack.{
  nibbles, gathered, prepack_codes, prepack_scales, prepack, split_nibble, unprepack_nibbles,
  unprepack_scales, join_nibbles, unprepack,
}
use v100_skinny_unify.Skinny.Prepack.Nibbles.{IsBytes, pair_facts, byte_facts, nibbles-lt}
use v100_skinny_unify.Skinny.Prepack.Pack.{prepack_codes-cell, prepack_scales-cell}
use v100_skinny_unify.Skinny.Prepack.Unpack.{
  unprepack_nibbles-place, unprepack_scales-place, Place, address-Place,
}

pub record IsPrepacked (n k2 : ℕ) (codes scales qc₀ qs₀ : Buf) (qc qs : Tensor) : Type 0 where
  pub rows : n % 32 ≡ 0
  pub columns : k2 * 2 % 64 ≡ 0
  pub codes_at : qc.at ≡ prepack_codes (n / 32) (k2 * 2 / 16) (k2 * 2) codes qc₀
  pub scales_at : qs.at ≡ prepack_scales (n / 32) (k2 * 2 / 16) scales qs₀

pub prepack-IsPrepacked :
    (n k2 : ℕ) (codes scales qc₀ qs₀ : Buf) {qc qs : Tensor}
    → prepack n k2 codes scales qc₀ qs₀ ≡ some (qc, qs)
    → IsPrepacked n k2 codes scales qc₀ qs₀ qc qs
unfolding prepack
prepack-IsPrepacked n k2 codes scales qc₀ qs₀ h = ground arith

pub gathered-lt :
    (k : ℕ) (codes : Buf) (t g l j : ℕ) → IsBytes codes → gathered k codes t g l j < 16
unfolding gathered
gathered-lt k codes t g l j bytes = nibbles-lt codes _ bytes

pub even_half : (j : ℕ) → (j % 2 == 0) ≡ true → 2 * (j / 2) ≡ j
even_half j e = ground arith

pub odd_half : (j : ℕ) → (j % 2 == 0) ≡ false → 2 * (j / 2) + 1 ≡ j
odd_half j e = ground arith

-- The nibble that unpacking a packed buffer takes for a place is the gathered one.
split_nibble-gathered :
    (tiles k : ℕ) (codes first : Buf) (t g l j : ℕ)
    → IsBytes codes
    → t < tiles
    → g < k / 16
    → l < 32
    → j < 16
    → split_nibble (k / 16) (prepack_codes tiles (k / 16) k codes first) t g l j
      ≡ gathered k codes t g l j
unfolding split_nibble
split_nibble-gathered tiles k codes first t g l j bytes ht hg hl hj =
    let b = j / 2 in
    let lo = gathered k codes t g l (2 * b) in
    let hi = gathered k codes t g l (2 * b + 1) in
    let packed = prepack_codes-cell tiles (k / 16) first t g l ht hg hl k b codes (omega arith) in
    let pair =
      pair_facts lo hi (gathered-lt k codes t g l (2 * b) bytes)
        (gathered-lt k codes t g l (2 * b + 1) bytes) in
    ap (λ y. if j % 2 == 0 then bit_and y 15 else y / 2 ^ 4) packed
    ∙ elim (Bool-cases (j % 2 == 0)) [
      | inl e ↦ rw e (pair.low-pack_byte ∙ ap (gathered k codes t g l) (even_half j e))
      | inr e ↦ rw e (pair.high-pack_byte ∙ ap (gathered k codes t g l) (odd_half j e))
    ]

-- Unpacking a packed buffer puts every nibble back.
unprepack_nibbles-prepack_codes :
    (n k : ℕ) (codes qc₀ nib₀ : Buf) (a : ℕ)
    → IsBytes codes
    → Place n k a
    → unprepack_nibbles (n / 32) (k / 16) k (prepack_codes (n / 32) (k / 16) k codes qc₀) nib₀ a
      ≡ nibbles codes a
unfolding gathered
unprepack_nibbles-prepack_codes n k codes qc₀ nib₀ a bytes p =
    subst
      (λ x.
        unprepack_nibbles (n / 32) (k / 16) k (prepack_codes (n / 32) (k / 16) k codes qc₀) nib₀ x
        ≡ nibbles codes x)
      p.address
      (unprepack_nibbles-place (n / 32) k nib₀ p.tile p.group p.lane p.tile_lt p.group_lt p.lane_lt
          (prepack_codes (n / 32) (k / 16) k codes qc₀) p.slot p.slot_lt
        ∙ split_nibble-gathered (n / 32) k codes qc₀ p.tile p.group p.lane p.slot bytes p.tile_lt
            p.group_lt p.lane_lt p.slot_lt)

pub nibbles-even : (codes : Buf) (i : ℕ) → nibbles codes (2 * i) ≡ bit_and (codes i) 15
unfolding nibbles
nibbles-even codes i =
    let half : 2 * i / 2 ≡ i = omega arith in
    let even : 2 * i % 2 ≡ 0 = omega arith in rw (half, even)

pub nibbles-odd : (codes : Buf) (i : ℕ) → nibbles codes (2 * i + 1) ≡ codes i / 2 ^ 4
unfolding nibbles
nibbles-odd codes i =
    let half : (2 * i + 1) / 2 ≡ i = omega arith in
    let odd : (2 * i + 1) % 2 ≡ 1 = omega arith in rw (half, odd)

-- Packing the two nibbles of a byte gives the byte.
join_nibbles-nibbles :
    (codes nib : Buf) (i : ℕ)
    → IsBytes codes
    → nib (2 * i) ≡ nibbles codes (2 * i)
    → nib (2 * i + 1) ≡ nibbles codes (2 * i + 1)
    → join_nibbles nib i ≡ codes i
unfolding join_nibbles
join_nibbles-nibbles codes nib i bytes lo hi =
    rw (lo, hi, nibbles-even, nibbles-odd) (byte_facts (codes i) (bytes i)).pack_byte_lem

-- Unpacking the packed scales puts every scale back.
unprepack_scales-prepack_scales :
    (n groups : ℕ) (scales qs₀ scales₀ : Buf) (r g : ℕ)
    → n % 32 ≡ 0
    → r < n
    → g < groups
    → unprepack_scales
        (n / 32)
        groups
        (prepack_scales (n / 32) groups scales qs₀)
        scales₀
        (r * groups + g)
      ≡ scales (r * groups + g)
unprepack_scales-prepack_scales n groups scales qs₀ scales₀ r g rows hr hg =
    let l = lane_of (r % 32) in
    let hl : l < 32 = (lane_facts (r % 32) (omega arith)).lane_of-lt in
    let ht : r / 32 < n / 32 = omega arith in
    subst
      (λ x.
        unprepack_scales (n / 32) groups (prepack_scales (n / 32) groups scales qs₀) scales₀
          (x * groups + g)
        ≡ scales (x * groups + g))
      (ncol-lane_of r)
      (unprepack_scales-place (n / 32) groups (prepack_scales (n / 32) groups scales qs₀) scales₀
          (r / 32) g l ht hg hl
        ∙ prepack_scales-cell (n / 32) groups qs₀ (r / 32) g l ht hg hl scales)

-- Unpacking undoes packing: for a shape that `_qpn_prepack` accepts and codes that are bytes, every
-- byte of the codes and every scale comes back, whatever the freshly allocated buffers held.
pub unprepack-prepack :
    (n k2 : ℕ) (codes scales qc₀ qs₀ nib₀ scales₀ : Buf) {qc qs : Tensor}
    → IsBytes codes
    → prepack n k2 codes scales qc₀ qs₀ ≡ some (qc, qs)
    → (i r g : ℕ) → i < n * k2
    → r < n
    → g < k2 * 2 / 16
    → let (codes', scales') = unprepack n (k2 * 2) qc.at qs.at nib₀ scales₀ in
      (codes' i ≡ codes i) × (scales' (r * (k2 * 2 / 16) + g) ≡ scales (r * (k2 * 2 / 16) + g))
unfolding unprepack
unprepack-prepack n k2 codes scales qc₀ qs₀ nib₀ scales₀ bytes h i r g hi hr hg =
    let f = prepack-IsPrepacked n k2 codes scales qc₀ qs₀ h in
    let place = λ (a : ℕ) (ha : a < n * (k2 * 2)).
      address-Place n (k2 * 2) a f.rows (omega (arith, f.columns)) (grind arith) ha in
    let back = λ (a : ℕ) (ha : a < n * (k2 * 2)).
      unprepack_nibbles-prepack_codes n (k2 * 2) codes qc₀ nib₀ a bytes (place a ha) in
    rw (f.codes_at, f.scales_at)
      (
        join_nibbles-nibbles codes
            (unprepack_nibbles (n / 32) (k2 * 2 / 16) (k2 * 2)
              (prepack_codes (n / 32) (k2 * 2 / 16) (k2 * 2) codes qc₀) nib₀)
            i bytes (back (2 * i) (omega arith)) (back (2 * i + 1) (omega arith)),
        unprepack_scales-prepack_scales n (k2 * 2 / 16) scales qs₀ scales₀ r g f.rows hr hg,
      )
