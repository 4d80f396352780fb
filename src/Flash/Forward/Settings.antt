-- ===== src/Flash/Forward/Settings.antt =====
-- The switches that `FlashAttnV100Impl.__init__` of fork_patches/flash_attn_v100.py reads for the
-- dispatch, from the operators that were found and the environment, with `_uses_fp8_kv_cache` and
-- `_supports_flash_v100_path`.
use v100_skinny_unify.Prelude.{ℕ, Bool, false, not, Option, none, some, [], ◌∷◌, ◌&&◌, ◌||◌}
use Prim.Native.String.{String}
use v100_skinny_unify.KvCache.Text.{same_text, starts_with, is_among}

-- Which operators are not None; `features` are those of the layer: a decoder without ALiBi slopes,
-- soft cap and sinks.
pub record Ops : Type 0 where
  pub flash_attn : Bool
  pub decode_paged : Bool
  pub prefill_paged : Bool

pub record Features : Type 0 where
  pub is_decoder : Bool
  pub no_alibi_slopes : Bool
  pub no_soft_cap : Bool
  pub no_sinks : Bool

-- The variables VLLM_FLASH_V100_…, `none` where one is not set. The two numbers are those after
-- `int`, a negative one as 0, which the tests treat alike.
pub record Environ : Type 0 where
  pub enable_paged_prefill : Option String
  pub disable_paged_prefill : Option String
  pub prefill_use_paged_cache : Option String
  pub prefill_use_triton : Option String
  pub allow_triton_fallback : Option String
  pub smallq_decode_max_q : Option ℕ
  pub smallq_decode_max_model_len : Option ℕ
  pub decode_dense_reference : Option String
  pub decode_dense_cache : Option String
  pub decode_use_paged_prefill : Option String
  pub decode_use_scalar_paged : Option String

-- The attributes.
pub record Impl : Type 0 where
  pub features : Features
  pub kv_cache_dtype : String
  pub use_flash_v100 : Bool
  pub use_flash_v100_decode : Bool
  pub use_flash_v100_prefill_paged : Bool
  pub use_prefill_paged_cache : Bool
  pub use_triton_prefill : Bool
  pub allow_triton_fallback : Bool
  pub smallq_decode_max_query_len : ℕ
  pub smallq_decode_max_model_len : ℕ
  pub use_decode_dense_reference : Bool
  pub use_decode_dense_cache : Bool
  pub use_decode_paged_prefill : Bool
  pub use_decode_scalar_paged : Bool

-- os.getenv(name) == text, with no default
unfoldable pub env_is : String → Option String → Bool
env_is text none = false
env_is text (some value) = same_text value text

-- int(os.getenv(name, default))
abbrev pub number_or : ℕ → Option ℕ → ℕ
number_or default none = default
number_or default (some n) = n

-- A default "0" is neither "1" nor different from "0".
unfoldable pub differs_from_zero : Option String → Bool
differs_from_zero none = false
differs_from_zero (some value) = not (same_text value "0")

unfoldable pub init : Ops → Features → String → Environ → Impl
unfolding env_is differs_from_zero
init ops features kv_cache_dtype e = record {
  features = features;
  kv_cache_dtype = kv_cache_dtype;
  use_flash_v100 = ops.flash_attn;
  use_flash_v100_decode = ops.decode_paged;
  use_flash_v100_prefill_paged =
      ops.prefill_paged
      && not (env_is "0" e.enable_paged_prefill)
      && not (env_is "1" e.disable_paged_prefill);
  use_prefill_paged_cache = env_is "1" e.prefill_use_paged_cache;
  use_triton_prefill = differs_from_zero e.prefill_use_triton;
  allow_triton_fallback = env_is "1" e.allow_triton_fallback;
  smallq_decode_max_query_len = number_or 16 e.smallq_decode_max_q;
  smallq_decode_max_model_len = number_or 0 e.smallq_decode_max_model_len;
  use_decode_dense_reference = env_is "1" e.decode_dense_reference;
  use_decode_dense_cache = env_is "1" e.decode_dense_cache;
  use_decode_paged_prefill = env_is "1" e.decode_use_paged_prefill;
  use_decode_scalar_paged = not (env_is "0" e.decode_use_scalar_paged);
}

unfoldable pub uses_fp8_kv_cache : String → Bool
unfolding starts_with
uses_fp8_kv_cache kv_cache_dtype = starts_with kv_cache_dtype "fp8"

unfoldable pub supports_flash_v100_path : Impl → Bool
unfolding uses_fp8_kv_cache is_among
supports_flash_v100_path impl =
    let supported_kv_dtype =
      not (uses_fp8_kv_cache impl.kv_cache_dtype)
      || is_among impl.kv_cache_dtype ("fp8" ∷ "fp8_e4m3" ∷ "fp8_e5m2" ∷ []) in
    impl.use_flash_v100 && impl.features.is_decoder && impl.features.no_alibi_slopes
    && impl.features.no_soft_cap && impl.features.no_sinks && supported_kv_dtype
