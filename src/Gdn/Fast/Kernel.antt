-- ===== src/Gdn/Fast/Kernel.antt =====
-- `_ddtree_gdn_fast_metadata_kernel` of fork_patches/gdn_attn.py, the Triton kernel that a fast build
-- launches by default in place of the copies and fills, with the block of lanes of its launch. It is one
-- program; a store writes the lanes that its mask selects. `states` is the storage of the rows, whose
-- stride is the width.
use v100_skinny_unify.Prelude.{
  ℕ, zero, suc, ◌+◌, ◌-◌, ◌*◌, ◌/◌, ◌^◌, ◌≤◌, ◌<◌, ◌≡◌, refl, sym, ap, ◌∙◌, min, max, Bool, true,
  false, List, ltb, leb, ◌==◌, ◌&&◌, if◌then◌else◌, arith, Bool-cases, inl, inr, ◌⊎◌, if_true,
  if_false,
}
use mathlib.Core.Path.{fun_ext, subst}
use v100_skinny_unify.Prelude.Lists.{get_or, replicate}
use v100_skinny_unify.Gdn.Fast.Tails.{fill-in, fill-out}
use v100_skinny_unify.Gdn.Fast.{Common, fill, fill_unless, Request, write_common}

-- int.bit_length; `fuel` counts the halvings.
unfoldable bit_length_from : ℕ → ℕ → ℕ
bit_length_from zero n = 0
bit_length_from (suc fuel) n =
    let rest = bit_length_from fuel (n / 2) in if n == 0 then 0 else suc rest

unfoldable pub bit_length : ℕ → ℕ
unfolding bit_length_from
bit_length n = bit_length_from n n

unfoldable pub state_block : ℕ → ℕ → ℕ
unfolding bit_length
state_block batch_size width =
    2 ^ bit_length (max (batch_size * width) (max (batch_size + 1) width))

-- tl.store(buffer + first + lanes, x, mask=lanes < n)
unfoldable pub store {ℓ} : {X : Type ℓ} → ℕ → ℕ → ℕ → (ℕ → X) → (ℕ → X) → ℕ → X
store block first n x buffer i =
    if leb first i && ltb (i - first) (min n block) then x (i - first) else buffer i

abbrev pub store_unless {ℓ} : {X : Type ℓ} → Bool → ℕ → ℕ → ℕ → X → (ℕ → X) → ℕ → X
store_unless true block first n x buffer = buffer
store_unless false block first n x buffer = store block first n (λ _. x) buffer

module _ {A : Type 0} (pad : A) where
  unfoldable pub kernel_states : Bool → ℕ → Request A → (ℕ → A) → ℕ → A
  unfolding store
  kernel_states tail block r states =
      store_unless tail block r.width (r.batch_size * r.width - r.width) pad
        (store block 0 r.width (λ j. get_or r.states j pad) states)

-- if update_common; the rows past the first only if not common_tail_initialized
unfoldable pub kernel_common : {A : Type 0} → Bool → Bool → ℕ → Request A → Common → Common
unfolding store
kernel_common false tail block r c = c
kernel_common true tail block r c = record c {
  masks = store_unless tail block 1 (r.batch_size - 1) false (store 1 0 1 (λ _. true) c.masks);
  starts = store_unless tail block 1 r.batch_size r.query_len (store 1 0 1 (λ _. 0) c.starts);
  accepted =
      store_unless tail block 1 (r.batch_size - 1) 1 (store 1 0 1 (λ _. r.accepted) c.accepted);
  selectors =
      store_unless tail block 1 (r.batch_size - 1) 1 (store 1 0 1 (λ _. r.selector) c.selectors);
}

-- Enough lanes: a number is below the power of its length.
below_power : (fuel n : ℕ) → n ≤ fuel → n < 2 ^ bit_length_from fuel n
unfolding bit_length_from
below_power zero n h = omega arith
below_power (suc fuel) n h = elim (Bool-cases (n == 0)) [
  | inl none_left ↦
      subst (λ k. n < 2 ^ k)
        (sym (if_true (n == 0) 0 (suc (bit_length_from fuel (n / 2))) none_left)) (ground arith)
  | inr some_left ↦
      let half = below_power fuel (n / 2) (ground arith) in
      subst (λ k. n < 2 ^ k)
        (sym (if_false (n == 0) 0 (suc (bit_length_from fuel (n / 2))) some_left))
        (omega (arith, half))
]

store-in :
    {X : Type 0} (block first n : ℕ) (x : ℕ → X) (buffer : ℕ → X) (i : ℕ)
    → n ≤ block
    → first ≤ i
    → i < first + n
    → store block first n x buffer i ≡ x (i - first)
unfolding store
store-in block first n x buffer i h lo hi = ground arith

store-out :
    {X : Type 0} (block first n : ℕ) (x : ℕ → X) (buffer : ℕ → X) (i : ℕ)
    → (i < first) ⊎ (first + n ≤ i)
    → store block first n x buffer i ≡ buffer i
unfolding store
store-out block first n x buffer i out = ground arith

-- Before the padding there is what was there.
store_unless-before :
    {X : Type 0} (tail : Bool) (block first n : ℕ) (x : X) (buffer : ℕ → X) (i : ℕ)
    → i < first
    → store_unless tail block first n x buffer i ≡ buffer i
store_unless-before true block first n x buffer i lt = refl
store_unless-before false block first n x buffer i lt =
    store-out block first n (λ _. x) buffer i (inl lt)

fill_unless-first :
    {X : Type 0} (tail : Bool) (n : ℕ) (x y : X) (buffer : ℕ → X)
    → fill_unless tail 1 n x (fill 0 1 y buffer) 0 ≡ y
unfolding fill
fill_unless-first true n x y buffer = refl
fill_unless-first false n x y buffer = refl

store-fill :
    {X : Type 0} (block from to : ℕ) (x : X) (buffer : ℕ → X)
    → to - from ≤ block
    → store block from (to - from) (λ _. x) buffer ≡ fill from to x buffer
unfolding store fill
store-fill block from to x buffer h = fun_ext (λ i. ground arith)

store-fill_unless :
    {X : Type 0} (tail : Bool) (block from to : ℕ) (x : X) (buffer : ℕ → X)
    → to - from ≤ block
    → store_unless tail block from (to - from) x buffer ≡ fill_unless tail from to x buffer
store-fill_unless true block from to x buffer h = refl
store-fill_unless false block from to x buffer h = store-fill block from to x buffer h

get-replicate : {X : Type 0} (n j : ℕ) (x : X) → get_or (replicate n x) j x ≡ x
get-replicate zero j x = refl
get-replicate (suc n) zero x = refl
get-replicate (suc n) (suc j) x = get-replicate n j x

mul-le : (a b c : ℕ) → a ≤ b → a * c ≤ b * c
mul-le zero b c h = omega arith
mul-le (suc a) zero c h = absurd (omega arith)
mul-le (suc a) (suc b) c h = omega (arith, mul-le a b c (omega arith))

lanes :
    (batch_size width : ℕ)
    → (batch_size * width < state_block batch_size width)
      × (batch_size + 1 < state_block batch_size width)
      × (width < state_block batch_size width)
unfolding state_block bit_length
lanes batch_size width =
    let n = max (batch_size * width) (max (batch_size + 1) width) in
    let enough = below_power n n (omega arith) in
    (omega (arith, enough), omega (arith, enough), omega (arith, enough))

row-Writes :
    {X : Type 0} (tail : Bool) (block n m : ℕ) (x y : X) (buffer : ℕ → X)
    → n ≤ block
    → n + 1 ≡ m
    → store_unless tail block 1 n x (store 1 0 1 (λ _. y) buffer)
      ≡ fill_unless tail 1 m x (fill 0 1 y buffer)
row-Writes tail block n m x y buffer h e =
    let first = store-fill 1 0 1 y buffer (omega arith) in
    let size : n ≡ m - 1 = omega (arith, e) in
    ap (store_unless tail block 1 n x) first
    ∙ ap (λ k. store_unless tail block 1 k x (fill 0 1 y buffer)) size
    ∙ store-fill_unless tail block 1 m x (fill 0 1 y buffer) (omega (arith, e))

-- The rows of the masks, the locations, the counts and the selectors.
common-Writes :
    {A : Type 0} (tail : Bool) (r : Request A) (c : Common)
    → 1 ≤ r.batch_size
    → kernel_common true tail (state_block r.batch_size r.width) r c ≡ write_common tail r c
unfolding kernel_common write_common
common-Writes tail r c some_row =
    let block = state_block r.batch_size r.width in
    let (cells, rows, columns) = lanes r.batch_size r.width in
    let room : r.batch_size - 1 ≤ block = omega (arith, rows) in
    let size : r.batch_size - 1 + 1 ≡ r.batch_size = omega arith in
    λ j. record c {
      masks = row-Writes tail block (r.batch_size - 1) r.batch_size false true c.masks room size j;
      starts =
          row-Writes tail block r.batch_size (r.batch_size + 1) r.query_len 0 c.starts
            (omega (arith, rows)) refl j;
      accepted =
          row-Writes tail block (r.batch_size - 1) r.batch_size 1 r.accepted c.accepted room size j;
      selectors =
          row-Writes tail block (r.batch_size - 1) r.batch_size 1 r.selector c.selectors room size
            j;
    }

module _ {A : Type 0} (pad : A) where
  -- Rows are laid out in a storage one after another.
  abbrev pub IsLaid : ℕ → ℕ → (ℕ → List A) → (ℕ → A) → Type 0
  IsLaid batch_size width rows storage =
      (i j : ℕ) → i < batch_size → j < width → storage (i * width + j) ≡ get_or (rows i) j pad

  states-IsLaid :
      (tail : Bool) (r : Request A) (rows : ℕ → List A) (storage : ℕ → A)
      → IsLaid r.batch_size r.width rows storage
      → IsLaid r.batch_size r.width
          (fill_unless tail 1 r.batch_size (replicate r.width pad) (fill 0 1 r.states rows))
          (kernel_states pad tail (state_block r.batch_size r.width) r storage)
  unfolding kernel_states store fill
  states-IsLaid tail r rows storage laid zero j lt within =
      let block = state_block r.batch_size r.width in
      let (cells, more, columns) = lanes r.batch_size r.width in
      let given = store block 0 r.width (λ k. get_or r.states k pad) storage in
      ap (store_unless tail block r.width (r.batch_size * r.width - r.width) pad given)
        (let e : 0 * r.width + j ≡ j = omega arith in e)
      ∙ store_unless-before tail block r.width (r.batch_size * r.width - r.width) pad given j within
      ∙ store-in block 0 r.width (λ k. get_or r.states k pad) storage j (omega (arith, columns))
          (omega arith) (omega arith)
      ∙ ap (λ k. get_or r.states k pad) (let e : j - 0 ≡ j = omega arith in e)
      ∙ ap (λ row. get_or row j pad)
          (sym (fill_unless-first tail r.batch_size (replicate r.width pad) r.states rows))
  states-IsLaid true r rows storage laid (suc i) j lt within =
      store-out (state_block r.batch_size r.width) 0 r.width (λ k. get_or r.states k pad) storage
        (suc i * r.width + j) (inr (omega arith))
      ∙ laid (suc i) j lt within
      ∙ ap (λ row. get_or row j pad) (sym (fill-out 0 1 (suc i) r.states rows (inr (omega arith))))
  states-IsLaid false r rows storage laid (suc i) j lt within =
      let (cells, more, columns) = lanes r.batch_size r.width in
      let here = mul-le (suc (suc i)) r.batch_size r.width lt in
      store-in (state_block r.batch_size r.width) r.width (r.batch_size * r.width - r.width)
        (λ _. pad)
        (store (state_block r.batch_size r.width) 0 r.width (λ k. get_or r.states k pad) storage)
        (suc i * r.width + j) (omega (arith, cells)) (omega arith) (omega (arith, here))
      ∙ sym (get-replicate r.width j pad)
      ∙ ap (λ row. get_or row j pad)
          (sym (
            fill-in 1 r.batch_size (suc i) (replicate r.width pad) (fill 0 1 r.states rows)
              (omega arith) lt))

  -- The Triton kernel writes what the copies and fills write: with the block of its launch, which
  -- has a lane for every cell of the rows, the storage holds afterwards the rows of the states that a
  -- fast build leaves, the padding filled or not, if it held the rows before; and where they are
  -- to be updated the masks, the locations, the counts and the selectors are those that it leaves,
  -- and the same as before where they are not. There is a row.
  pub kernel-Writes :
      (tail update common_tail : Bool) (r : Request A) (rows : ℕ → List A) (storage : ℕ → A)
      (c : Common)
      → 1 ≤ r.batch_size
      → IsLaid r.batch_size r.width rows storage
      → IsLaid r.batch_size r.width
          (fill_unless tail 1 r.batch_size (replicate r.width pad) (fill 0 1 r.states rows))
          (kernel_states pad tail (state_block r.batch_size r.width) r storage)
        × (kernel_common update common_tail (state_block r.batch_size r.width) r c
            ≡ (if update then write_common common_tail r c else c))
  unfolding kernel_common
  kernel-Writes tail true common_tail r rows storage c some_row laid =
      (states-IsLaid tail r rows storage laid, common-Writes common_tail r c some_row)
  kernel-Writes tail false common_tail r rows storage c some_row laid =
      (states-IsLaid tail r rows storage laid, refl)
