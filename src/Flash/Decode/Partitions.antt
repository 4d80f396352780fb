-- ===== src/Flash/Decode/Partitions.antt =====
-- How many partitions are active.
use v100_skinny_unify.Prelude.{
  ℕ, zero, suc, ◌+◌, ◌-◌, ◌*◌, ◌/◌, ◌≤◌, ◌<◌, ◌≡◌, refl, sym, ap, ◌∙◌, max, Bool, true, false,
  Option, none, some, inl, inr, arith,
}
use mathlib.Core.Path.{subst}
use native.Mathlib.Nat.{div-mul-le_self, le-div_iff_mul-le}
use v100_skinny_unify.Prelude.Options.{>>=-first, some_injective, if_cases}
use v100_skinny_unify.Prelude.Int.{pos, negsuc}
use v100_skinny_unify.Flash.Pages.{cdiv_int}
use v100_skinny_unify.Flash.Pages.Extract.{cdiv_covers}
use v100_skinny_unify.Flash.Decode.{
  select_default_partition_size, Setting, unset, not_a_number, number, partition_size_for, Lengths,
  decode_shape_hints, uncaptured, write_active, update_active, attach_decode,
}

-- A size is 256, 512 or 1024.
pub partition_size-positive :
    (s : Setting) (hint : Option ℕ) (size : ℕ) → partition_size_for s hint ≡ some size → 0 < size
unfolding partition_size_for select_default_partition_size
partition_size-positive unset none size e = omega (arith, some_injective e)
partition_size-positive unset (some hint) size e = ground (arith, some_injective e)
partition_size-positive not_a_number hint size e = cc
partition_size-positive (number (pos n)) hint size e = ground arith
partition_size-positive (number (negsuc n)) hint size e = cc

pred-mul : (q a b : ℕ) → q * b ≤ a + b - 1 → 0 < b → 0 < a → (q - 1) * b < a
pred-mul zero a b le h some_a = omega arith
pred-mul (suc q) a b le h some_a =
    let e : (suc q - 1) * b ≡ q * b = ap (λ x. x * b) (omega arith) in omega (arith, e)

-- No more blocks than needed.
cdiv_int-tight : (a b : ℕ) → 0 < b → 0 < a → (cdiv_int a b - 1) * b < a
unfolding cdiv_int
cdiv_int-tight a b h some_a =
    pred-mul ((a + b - 1) / b) a b (div-mul-le_self (a + b - 1) b) h some_a

cdiv_int-le : (a b c : ℕ) → 0 < c → a ≤ b → cdiv_int a c ≤ cdiv_int b c
unfolding cdiv_int
cdiv_int-le a b c h le =
    let low : (a + c - 1) / c * c ≤ a + c - 1 = div-mul-le_self (a + c - 1) c in
    (le-div_iff_mul-le h).1 (omega arith)

-- The active partitions of a size hold the tokens of the longest sequence, the last of them is not
-- empty, and where a workspace holds these tokens it has as many partitions.
pub record Covers (size hint active : ℕ) : Type 0 where
  pub some_size : 0 < size
  pub holds : hint ≤ active * size
  pub needed : 0 < hint → (active - 1) * size < hint
  pub fits : (capacity : ℕ) → 0 < hint → hint ≤ capacity → active ≤ cdiv_int capacity size

cdiv_positive : (a b : ℕ) → 0 < b → 0 < a → 0 < cdiv_int a b
unfolding cdiv_int
cdiv_positive a b h some_a = (le-div_iff_mul-le {x = 1} h).1 (omega arith)

cdiv-Covers : (size hint : ℕ) → 0 < size → Covers size hint (max 1 (cdiv_int hint size))
cdiv-Covers size zero h = record {
  some_size = h;
  holds = omega arith;
  needed = λ some_hint. absurd (omega arith);
  fits = λ capacity some_hint le. absurd (omega arith);
}
cdiv-Covers size (suc n) h =
    let some_block = cdiv_positive (suc n) size h (omega arith) in
    let at_least : cdiv_int (suc n) size ≡ max 1 (cdiv_int (suc n) size) = omega arith in
    subst (Covers size (suc n)) at_least (record {
      some_size = h;
      holds = cdiv_covers (suc n) size h;
      needed = λ some_hint. cdiv_int-tight (suc n) size h some_hint;
      fits = λ capacity some_hint le. cdiv_int-le (suc n) capacity size h le;
    })

write_active-Covers :
    (setting : Setting) (hint active : ℕ) (after : Option ℕ)
    → write_active setting hint ≡ some (after, some active)
    → (size : ℕ) × (partition_size_for setting (some hint) ≡ some size)
      × (after ≡ some active)
      × Covers size hint active
unfolding write_active
write_active-Covers setting hint active after e =
    let (size, found, e') = >>=-first (partition_size_for setting (some hint)) _ e in
    let pair = some_injective e' in
    let count : max 1 (cdiv_int hint size) ≡ active = some_injective (ap (λ p. p.1) pair) in
    (
      size,
      found,
      sym (ap (λ p. p.0) pair) ∙ ap some count,
      subst (Covers size hint) count
          (cdiv-Covers size hint (partition_size-positive setting (some hint) size found)),
    )

update-Covers :
    (enabled : Bool) (setting : Setting) (max_seq_len workspace buffer : Option ℕ)
    (after : Option ℕ) (active : ℕ)
    → update_active enabled setting max_seq_len workspace buffer ≡ some (after, some active)
    → (hint : ℕ) × (size : ℕ) × (max_seq_len ≡ some hint)
      × (partition_size_for setting (some hint) ≡ some size)
      × (after ≡ some active)
      × Covers size hint active
unfolding update_active
update-Covers false setting m w buffer after active e = cc
update-Covers true setting none w buffer after active e = cc
update-Covers true setting (some hint) w buffer after active e =
    elim (if_cases (uncaptured w buffer) _ _ (after, some active) e) [
      | inl (_, e1) ↦ cc
      | inr (_, e1) ↦
          let (size, found, same, covers) = write_active-Covers setting hint active after e1 in
          (hint, size, refl, found, same, covers)
    ]

-- Where a decode is told how many partitions are active, the buffer holds that number, and by the
-- size for the longest sequence, which is positive, these partitions hold all tokens of the
-- sequence, the last of them is not empty, and a workspace that holds the tokens has as many. The
-- setting of the size is valid.
pub attach-Covers :
    (block_size : ℕ) (l : Lengths) (static_decode enabled : Bool) (setting : Setting)
    (buffer after : Option ℕ) (active : ℕ)
    → let r = attach_decode block_size l static_decode enabled setting buffer in
      r.1 ≡ some (after, some active)
      → (hint : ℕ) × (size : ℕ) × (r.0.max_seq_len ≡ some hint)
        × (partition_size_for setting (some hint) ≡ some size)
        × (after ≡ some active)
        × Covers size hint active
unfolding attach_decode
attach-Covers block_size l static_decode enabled setting buffer after active e =
    let hints = decode_shape_hints block_size l static_decode in
    update-Covers enabled setting hints.max_seq_len hints.workspace_seq_capacity buffer after active
      e
