-- ===== src/Skinny/Prepack/Nibbles.antt =====
-- The two nibbles of a byte: `& 0xF`, `>> 4` and the packing `lo | (hi << 4)`.
use v100_skinny_unify.Prelude.{
  ℕ, ◌/◌, ◌^◌, ◌<◌, ◌≡◌, refl, bit_and, true, arith, ◌==◌, ◌&&◌, ltb, every_under, every_under_at,
}
use v100_skinny_unify.Tensor.{Buf}
use v100_skinny_unify.Skinny.Prepack.{pack_byte, nibbles}

-- Every pair of nibbles and every byte is checked by evaluation.
pair_table :
    every_under 16 (λ a. every_under 16 (λ b.
      (bit_and (pack_byte a b) 15 == a) && (pack_byte a b / 2 ^ 4 == b) && ltb (pack_byte a b) 256))
    ≡ true
unfolding every_under pack_byte
pair_table = refl

byte_table :
    every_under 256 (λ c. (pack_byte (bit_and c 15) (c / 2 ^ 4) == c) && ltb (bit_and c 15) 16)
    ≡ true
unfolding every_under pack_byte
byte_table = refl

pub record PairFacts (a b : ℕ) : Type 0 where
  pub low-pack_byte : bit_and (pack_byte a b) 15 ≡ a
  pub high-pack_byte : pack_byte a b / 2 ^ 4 ≡ b
  pub pack_byte-lt : pack_byte a b < 256

pub pair_facts : (a b : ℕ) → a < 16 → b < 16 → PairFacts a b
pair_facts a b ha hb = ground (arith, every_under_at 16 _ hb (every_under_at 16 _ ha pair_table))

pub record ByteFacts (c : ℕ) : Type 0 where
  pub pack_byte_lem : pack_byte (bit_and c 15) (c / 2 ^ 4) ≡ c
  pub low-lt : bit_and c 15 < 16
  pub high-lt : c / 2 ^ 4 < 16

pub byte_facts : (c : ℕ) → c < 256 → ByteFacts c
byte_facts c h = ground (arith, every_under_at 256 _ h byte_table)

-- A buffer of bytes.
abbrev pub IsBytes : Buf → Type 0
IsBytes m = (i : ℕ) → m i < 256

pub nibbles-lt : (codes : Buf) (i : ℕ) → IsBytes codes → nibbles codes i < 16
unfolding nibbles
nibbles-lt codes i h = ground (arith, byte_facts (codes (i / 2)) (h (i / 2)))
