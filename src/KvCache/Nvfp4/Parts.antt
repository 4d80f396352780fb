-- ===== src/KvCache/Nvfp4/Parts.antt =====
-- Where the data and the scales of an NVFP4 page lie.
use v100_skinny_unify.Prelude.{
  ℕ, ◌+◌, ◌-◌, ◌*◌, ◌/◌, ◌%◌, ◌≤◌, ◌<◌, ◌≡◌, refl, sym, ap, ◌∙◌, ◌⊎◌, inl, inr, arith,
}
use v100_skinny_unify.Prelude.Division.{offset_lt}
use native.Mathlib.Nat.{div-eq_of_eq-mul_left, mul-add, mul-div_right}
use v100_skinny_unify.KvCache.Nvfp4.{
  nvfp4_kv_cache_full_dim, View, address, as_part, split_data_scale,
}

-- The heads and the tokens of a page, in either order.
abbrev pub IsPacked : View → Type 0
IsPacked v =
    ((v.stride_1 ≡ v.dim_2 * v.last) × (v.stride_2 ≡ v.last))
    ⊎ ((v.stride_1 ≡ v.last) × (v.stride_2 ≡ v.dim_1 * v.last))

-- A stride of whole last dimensions is scaled to whole parts of them.
scaled_stride : (n part last : ℕ) → 0 < last → n * last * part / last ≡ n * part
scaled_stride n part last h = div-eq_of_eq-mul_left {n = last} h ground arith

last_stride : (part last : ℕ) → 0 < last → last * part / last ≡ part
last_stride part last h = mul-div_right part h

-- Two nested offsets, with the strides of a block.
nested_lt :
    (base a b part i j k : ℕ)
    → i < a
    → j < b
    → k < part
    → base + i * (b * part) + j * part + k < base + a * b * part
nested_lt base a b part i j k hi hj hk =
    let within : (i * b + j) * part + k < a * b * part = offset_lt (offset_lt hi hj) hk in
    ground arith

-- A packed part takes one block of each page.
part_within :
    (side : View) (part offset p i j k : ℕ)
    → IsPacked side
    → 0 < side.last
    → i < side.dim_1
    → j < side.dim_2
    → k < part
    → (offset + p * side.stride_0 ≤ address (as_part side part offset) p i j k)
      × (address (as_part side part offset) p i j k
          < offset + p * side.stride_0 + side.dim_1 * side.dim_2 * part)
unfolding address as_part
part_within side part offset p i j k (inl (e1, e2)) h hi hj hk =
    let outer : side.stride_1 * part / side.last ≡ side.dim_2 * part =
      ap (λ s. s * part / side.last) e1 ∙ scaled_stride side.dim_2 part side.last h in
    let inner : side.stride_2 * part / side.last ≡ part =
      ap (λ s. s * part / side.last) e2 ∙ last_stride part side.last h in
    rw (outer, inner)
      (
        omega arith,
        nested_lt (offset + p * side.stride_0) side.dim_1 side.dim_2 part i j k hi hj hk,
      )
part_within side part offset p i j k (inr (e1, e2)) h hi hj hk =
    let outer : side.stride_2 * part / side.last ≡ side.dim_1 * part =
      ap (λ s. s * part / side.last) e2 ∙ scaled_stride side.dim_1 part side.last h in
    let inner : side.stride_1 * part / side.last ≡ part =
      ap (λ s. s * part / side.last) e1 ∙ last_stride part side.last h in
    let lt = nested_lt (offset + p * side.stride_0) side.dim_2 side.dim_1 part j i k hj hi hk in
    rw (outer, inner) (omega arith, ground (arith, lt))

-- The sizes of the two parts for a head of 16 h elements.
part_sizes :
    (head last : ℕ)
    → head % 16 ≡ 0
    → last ≡ nvfp4_kv_cache_full_dim head
    → (last * 8 / 9 ≡ head / 2) × (last - last * 8 / 9 ≡ head / 16)
unfolding nvfp4_kv_cache_full_dim
part_sizes head last h e = omega arith

-- Splitting a side of an NVFP4 cache, for heads of a multiple of 16 elements and pages that are
-- packed in either order: half a byte for each element and one scale for 16 of them, and on each
-- page the data come first and the scales after them, inside the page's block of that side.
pub split_data_scale-parts :
    (side : View) (head : ℕ)
    → head % 16 ≡ 0
    → 0 < head
    → side.last ≡ nvfp4_kv_cache_full_dim head
    → IsPacked side
    → (p i j k s : ℕ) → i < side.dim_1
    → j < side.dim_2
    → k < head / 2
    → s < head / 16
    → let (codes, scale) = split_data_scale side in
      let start = side.offset + p * side.stride_0 in
      let middle = start + side.dim_1 * side.dim_2 * (head / 2) in
      (codes.last ≡ head / 2)
      × (scale.last ≡ head / 16)
      × (start ≤ address codes p i j k)
      × (address codes p i j k < middle)
      × (middle ≤ address scale p i j s)
      × (address scale p i j s < start + side.dim_1 * side.dim_2 * side.last)
unfolding split_data_scale as_part
split_data_scale-parts side head whole some_head full packed p i j k s hi hj hk hs =
    let (data_dim, scale_dim) = part_sizes head side.last whole full in
    let parts : head / 2 + head / 16 ≡ side.last = omega (arith, data_dim, scale_dim) in
    let pos : 0 < side.last = omega (arith, some_head) in
    let area = side.dim_1 * side.dim_2 in
    let low = part_within side (head / 2) side.offset p i j k packed pos hi hj hk in
    let high =
      part_within side (head / 16) (side.offset + area * (head / 2)) p i j s packed pos hi hj hs in
    let total : area * (head / 2) + area * (head / 16) ≡ area * side.last =
      sym (mul-add area (head / 2) (head / 16)) ∙ ap (λ n. area * n) parts in
    let rest : side.last - head / 2 ≡ head / 16 = omega (arith, parts) in
    rw (data_dim, rest)
      (refl, refl, low.0, low.1, omega (arith, high.0), omega (arith, high.1, total))
