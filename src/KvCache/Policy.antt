-- ===== src/KvCache/Policy.antt =====
-- `is_quantized_kv_cache`, `get_kv_cache_quant_algo_string`, `checkpoint_kv_quant_allowed` and
-- `resolve_kv_cache_dtype_string` of fork_patches/torch_utils.py, and what `Attention.__init__` of
-- fork_patches/attention.py does with the result. A configuration is the keys that they read.
pub mod Laws
use v100_skinny_unify.Prelude.{
  ℕ, Bool, true, false, not, Option, none, some, List, [], ◌∷◌, ◌==◌, ◌&&◌, ◌||◌, if◌then◌else◌,
}
use Prim.Native.String.{String}
use v100_skinny_unify.KvCache.Text.{same_text, starts_with, ends_with, lowers_to, is_among}

unfoldable pub is_quantized_kv_cache : String → Bool
is_quantized_kv_cache d = starts_with d "fp8" || ends_with d "per_token_head" || same_text d "nvfp4"

-- A dict of a KV cache scheme; `is_empty` is its falsity.
pub record Scheme : Type 0 where
  pub is_empty : Bool
  pub dynamic : Option Bool
  pub num_bits : Option ℕ
  pub type : Option String
  pub strategy : Option String

pub data Algo : Type 0 where
  text : String → Algo
  scheme : Scheme → Algo

-- `quantization` is the pair of the same two keys in the inner dict, if there is one.
pub record QuantConfig : Type 0 where
  pub quant_method : String
  pub kv_cache_scheme : Option Algo
  pub kv_cache_quant_algo : Option Algo
  pub quantization : Option (Option Algo × Option Algo)

-- bool(kv_algo)
abbrev pub is_true : Algo → Bool
is_true (text s) = not (same_text s "")
is_true (scheme s) = not s.is_empty

-- a or b
unfoldable pub py_or : Option Algo → Option Algo → Option Algo
py_or none b = b
py_or (some a) b = if is_true a then some a else b

abbrev pub inner_of : QuantConfig → Option Algo × Option Algo
inner_of c = elim c.quantization [
  | none ↦ (c.kv_cache_scheme, c.kv_cache_quant_algo)
  | some inner ↦ inner
]

unfoldable pub kv_algo_of : QuantConfig → Option Algo
kv_algo_of c =
    let inner = inner_of c in
    py_or inner.0 (py_or c.kv_cache_scheme (py_or inner.1 c.kv_cache_quant_algo))

abbrev pub is_no : Option Bool → Bool
is_no (some false) = true
is_no _ = false

abbrev pub is_number : ℕ → Option ℕ → Bool
is_number n none = false
is_number n (some m) = m == n

abbrev pub is_text : String → Option String → Bool
is_text s none = false
is_text s (some t) = same_text t s

-- The branch on a dict: the name it stands for, or none for an unknown one.
unfoldable pub scheme_name : Scheme → Option String
scheme_name s =
    if is_no s.dynamic && is_number 8 s.num_bits && is_text "float" s.type
    then some "fp8"
    else if is_number 4 s.num_bits && is_text "float" s.type
    then some "nvfp4"
    else none

-- MODELOPT_TO_VLLM_KV_CACHE_DTYPE_MAP, with "auto" for a name it lacks
unfoldable pub mapped : String → String
mapped name =
    if lowers_to name "fp8" then "fp8_e4m3" else if lowers_to name "nvfp4" then "nvfp4" else "auto"

unfoldable pub algo_dtype : Option Algo → Option String
algo_dtype none = none
algo_dtype (some (text s)) = some (mapped s)
algo_dtype (some (scheme s)) = elim (scheme_name s) [
  | none ↦ some "auto"
  | some name ↦ some (mapped name)
]

unfoldable pub get_kv_cache_quant_algo_string : QuantConfig → Option String
get_kv_cache_quant_algo_string c =
    if starts_with c.quant_method "modelopt" then algo_dtype (kv_algo_of c) else none

-- What a device answers: has_device_capability(80), or an exception.
pub data Probe : Type 0 where
  capable : Bool → Probe
  fails : Probe

unfoldable pub checkpoint_kv_quant_allowed : (override : Bool) → Probe → Bool
checkpoint_kv_quant_allowed true probe = true
checkpoint_kv_quant_allowed false (capable b) = b
checkpoint_kv_quant_allowed false fails = true

unfoldable pub resolve_kv_cache_dtype_string :
    (allowed : Bool) → String → Option QuantConfig → String
resolve_kv_cache_dtype_string allowed d config =
    if not (same_text d "auto") then d else elim config [
      | none ↦ "auto"
      | some c ↦ elim (get_kv_cache_quant_algo_string c) [
        | none ↦ "auto"
        | some name ↦ if not allowed then "auto" else name
      ]
    ]

-- The shared cache configuration.
pub record CacheConfig : Type 0 where
  pub cache_dtype : String
  pub calculate_kv_scales : Bool
  pub skip_layers : List String

-- A layer: the KV cache scheme of its quantization, whether it has a sliding window, and its index
-- as a text.
pub record AttentionLayer : Type 0 where
  pub kv_cache_scheme : Option Scheme
  pub sliding_window : Bool
  pub index : String

pub record LayerDtype : Type 0 where
  pub kv_cache_dtype : String
  pub calculate_kv_scales : Bool
  pub per_head_scales : Bool

abbrev pub has_scheme : Option Scheme → Bool
has_scheme none = false
has_scheme (some s) = true

abbrev pub per_head : Option Scheme → Bool
per_head none = false
per_head (some s) = is_text "attn_head" s.strategy

-- `Attention.__init__` without a cache configuration is the case of one with "auto", no scales and
-- no skipped layers.
-- The dtype is taken from the scheme if nothing else chose one; the shared configuration follows.
unfoldable pub honours : (allowed : Bool) → AttentionLayer → String → Bool
honours allowed l d = has_scheme l.kv_cache_scheme && same_text d "auto" && allowed

abbrev pub is_nonempty : List String → Bool
is_nonempty [] = false
is_nonempty (s ∷ ss) = true

unfoldable pub is_skipped : List String → AttentionLayer → Bool
is_skipped skips l =
    is_nonempty skips
    && (l.sliding_window && is_among "sliding_window" skips || is_among l.index skips)

unfoldable pub attention_dtype :
    (allowed : Bool) → AttentionLayer → CacheConfig → LayerDtype × CacheConfig
attention_dtype allowed l config =
    let honoured = honours allowed l config.cache_dtype in
    let config' : CacheConfig =
      if honoured
      then record config { cache_dtype = "fp8"; calculate_kv_scales = false }
      else config in
    let skip = is_skipped config'.skip_layers l in
    (
      record {
        kv_cache_dtype = if skip then "auto" else config'.cache_dtype;
        calculate_kv_scales = if skip then false else config'.calculate_kv_scales;
        per_head_scales = per_head l.kv_cache_scheme;
      },
      config',
    )

-- The layers of a model, one after another.
unfoldable pub all_layers :
    (allowed : Bool) → List AttentionLayer → CacheConfig → List LayerDtype × CacheConfig
all_layers allowed [] config = ([], config)
all_layers allowed (l ∷ ls) config =
    let (d, config') = attention_dtype allowed l config in
    let (ds, config'') = all_layers allowed ls config' in (d ∷ ds, config'')
