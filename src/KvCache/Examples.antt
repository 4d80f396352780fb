-- ===== src/KvCache/Examples.antt =====
-- The theorems on the KV cache at concrete inputs.
use v100_skinny_unify.Prelude.{
  ◌≤◌, ◌<◌, ◌≡◌, refl, inl, true, false, none, some, List, [], ◌∷◌, arith,
}
use v100_skinny_unify.KvCache.Policy.{
  Scheme, text, scheme, QuantConfig, checkpoint_kv_quant_allowed, resolve_kv_cache_dtype_string,
  AttentionLayer, all_layers,
}
use v100_skinny_unify.KvCache.Policy.Laws.{OnlyIfAsked, unasked_unquantized}
use v100_skinny_unify.KvCache.Nvfp4.{View, address, split_data_scale, nvfp4_kv_cache_full_dim}
use v100_skinny_unify.KvCache.Nvfp4.Parts.{split_data_scale-parts}

-- A scheme of 8-bit floats.
abbrev fp8_scheme : Scheme
fp8_scheme = record {
  is_empty = false;
  dynamic = some false;
  num_bits = some 8;
  type = some "float";
  strategy = none;
}

abbrev modelopt : QuantConfig
modelopt = record {
  quant_method = "modelopt";
  kv_cache_scheme = some (scheme fp8_scheme);
  kv_cache_quant_algo = some (text "FP8");
  quantization = none;
}

abbrev layers : List AttentionLayer
layers =
    record { kv_cache_scheme = some fp8_scheme; sliding_window = false; index = "0" }
    ∷ record { kv_cache_scheme = some fp8_scheme; sliding_window = true; index = "1" }
    ∷ []

unasked_unquantized_example :
    OnlyIfAsked "auto"
      (all_layers false layers (record {
        cache_dtype = resolve_kv_cache_dtype_string false "auto" (some modelopt);
        calculate_kv_scales = true;
        skip_layers = [];
      })).0
unfolding checkpoint_kv_quant_allowed
unasked_unquantized_example = unasked_unquantized "auto" (some modelopt) layers true []

-- Pages of 4 tokens and 2 heads of 128 elements, the tokens outside.
abbrev side : View
side = record {
  num_pages = 10;
  dim_1 = 4;
  dim_2 = 2;
  last = 72;
  offset = 0;
  stride_0 = 1152;
  stride_1 = 144;
  stride_2 = 72;
}

split_data_scale-parts_example :
    let (codes, scale) = split_data_scale side in
    (codes.last ≡ 64)
    × (scale.last ≡ 8)
    × (3456 ≤ address codes 3 2 1 63)
    × (address codes 3 2 1 63 < 3968)
    × (3968 ≤ address scale 3 2 1 7)
    × (address scale 3 2 1 7 < 4032)
unfolding nvfp4_kv_cache_full_dim
split_data_scale-parts_example =
    split_data_scale-parts side 128 refl (omega arith) refl (inl (refl, refl)) 3 2 1 63 7
      (omega arith) (omega arith) (omega arith) (omega arith)
