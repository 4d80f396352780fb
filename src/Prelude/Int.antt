-- ===== src/Prelude/Int.antt =====
-- Signed integers over the native numbers, under the library's names.
use Prim.Native.Nat.{ℕ, zero, suc, ◌+◌}

-- `negsuc n` is -(n + 1).
pub data ℤ : Type 0 where
  pos : ℕ → ℤ
  negsuc : ℕ → ℤ

-- max(z, 0)
abbrev pub clamp_ℤ : ℤ → ℕ
clamp_ℤ (pos n) = n
clamp_ℤ (negsuc n) = 0

-- m - n
unfoldable pub sub_ℕ : ℕ → ℕ → ℤ
sub_ℕ m zero = pos m
sub_ℕ zero (suc n) = negsuc n
sub_ℕ (suc m) (suc n) = sub_ℕ m n

infixl 60 ◌+ℤ◌
unfoldable pub ◌+ℤ◌ : ℤ → ℤ → ℤ
unfolding sub_ℕ
pos m +ℤ pos n = pos (m + n)
pos m +ℤ negsuc n = sub_ℕ m (suc n)
negsuc m +ℤ pos n = sub_ℕ n (suc m)
negsuc m +ℤ negsuc n = negsuc (suc (m + n))
