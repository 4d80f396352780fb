-- ===== src/KvCache/Nvfp4.antt =====
-- `nvfp4_kv_cache_full_dim`, `_nvfp4_split_data_scale` and `nvfp4_kv_cache_split_views` of
-- fork_patches/torch_utils.py. A strided tensor with an innermost stride of 1 is its sizes, strides
-- and storage offset.
pub mod Parts
use v100_skinny_unify.Prelude.{ℕ, ◌+◌, ◌-◌, ◌*◌, ◌/◌}

unfoldable pub nvfp4_kv_cache_full_dim : ℕ → ℕ
nvfp4_kv_cache_full_dim head_size = head_size / 2 + head_size / 16

pub record View : Type 0 where
  pub num_pages : ℕ
  pub dim_1 : ℕ
  pub dim_2 : ℕ
  pub last : ℕ
  pub offset : ℕ
  pub stride_0 : ℕ
  pub stride_1 : ℕ
  pub stride_2 : ℕ

-- The place in the storage of the element [p, i, j, k].
unfoldable pub address : View → ℕ → ℕ → ℕ → ℕ → ℕ
address v p i j k = v.offset + p * v.stride_0 + i * v.stride_1 + j * v.stride_2 + k

-- The view of `part` elements of the last dimension, at an offset.
unfoldable pub as_part : View → (part offset : ℕ) → View
as_part side part offset = record side {
  last = part;
  offset = offset;
  stride_1 = side.stride_1 * part / side.last;
  stride_2 = side.stride_2 * part / side.last;
}

-- (data, scale)
unfoldable pub split_data_scale : View → View × View
split_data_scale side =
    let data_dim = side.last * 8 / 9 in
    let scale_dim = side.last - data_dim in
    let data_per_kv = side.dim_1 * side.dim_2 * data_dim in
    (as_part side data_dim side.offset, as_part side scale_dim (side.offset + data_per_kv))

-- kv_cache[:, 0] and kv_cache[:, 1] of a tensor whose second stride is `stride_kv`, each of them
-- split: the pairs (k_data, k_scale) and (v_data, v_scale).
unfoldable pub split_views : (stride_kv : ℕ) → View → (View × View) × (View × View)
split_views stride_kv k_side = (
  split_data_scale k_side,
  split_data_scale (record k_side { offset = k_side.offset + stride_kv }),
)
