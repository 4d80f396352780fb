-- ===== src/Prelude/Division.antt =====
-- Quotients and remainders by an unknown: row-major offsets, and the blocks of a strided loop.
use Prim.Native.Nat.{ℕ, ◌+◌, ◌-◌, ◌*◌, ◌/◌, ◌%◌, ◌≤◌, ◌<◌}
use mathlib.Core.Path.{◌≡◌, ◌∙◌}
use native.Mathlib.Omega.{arith}
use native.Mathlib.Nat.{
  mul-add-div_right, mul-add-mod_self_right, div-eq_of_lt, mod-eq_of_lt, add-zero, lt-div-mul-add,
  div-mul-le_self, div-lt_iff_lt-mul,
}

-- The row and the column of a row-major offset.
pub row_of_offset : (r c : ℕ) {w : ℕ} → c < w → (r * w + c) / w ≡ r
row_of_offset r c {w} h = rw (mul-add-div_right {m = w} (omega arith) r c, div-eq_of_lt h, add-zero)

pub column_of_offset : (r c : ℕ) {w : ℕ} → c < w → (r * w + c) % w ≡ c
column_of_offset r c {w} h = mul-add-mod_self_right r w c ∙ mod-eq_of_lt h

-- An offset stays inside the matrix.
pub offset_lt : {r c h w : ℕ} → r < h → c < w → r * w + c < h * w
offset_lt p q = grind arith

-- A quotient is below the number of rows.
pub div-lt : {x h w : ℕ} → 0 < w → x < h * w → x / w < h
div-lt {x} {h} {w} p q = (div-lt_iff_lt-mul p).1 q

-- The block of a strided loop in which an index lies is one of its iterations.
pub block_lt : (t n c : ℕ) → 0 < c → t < n → t / c < (n + c - 1) / c
block_lt t n c p q =
    let m = (n + c - 1) / c in
    let top : n + c - 1 < m * c + c = lt-div-mul-add p in
    let low : t / c * c ≤ t = div-mul-le_self t c in grind arith
