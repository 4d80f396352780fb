-- ===== src/KvCache/Policy/Laws.antt =====
-- Who chooses the dtype of the KV cache.
use mathlib.Core.Path.{subst}
use v100_skinny_unify.Prelude.{
  ◌≡◌, refl, sym, ◌⊎◌, Bool, true, false, Option, some, List, [], ◌∷◌, arith, if◌then◌else◌,
}
use Prim.Native.String.{String}
use v100_skinny_unify.KvCache.Text.{same_text, starts_with, ends_with}
use v100_skinny_unify.KvCache.Policy.{
  is_quantized_kv_cache, QuantConfig, mapped, algo_dtype, get_kv_cache_quant_algo_string, capable,
  checkpoint_kv_quant_allowed, resolve_kv_cache_dtype_string, CacheConfig, AttentionLayer,
  LayerDtype, honours, is_skipped, attention_dtype, all_layers,
}

auto_unquantized : is_quantized_kv_cache "auto" ≡ false
unfolding is_quantized_kv_cache starts_with ends_with
auto_unquantized = refl

-- Where the checkpoint's directive is not allowed, the resolved dtype is quantized only if the dtype
-- that was asked for is.
resolve_quantized :
    (d : String) (config : Option QuantConfig)
    → is_quantized_kv_cache (resolve_kv_cache_dtype_string false d config) ≡ true
    → is_quantized_kv_cache d ≡ true
unfolding resolve_kv_cache_dtype_string
resolve_quantized d config h = ground (arith, auto_unquantized)

-- Every layer's dtype is quantized only if `d` is.
abbrev pub OnlyIfAsked : String → List LayerDtype → Type 0
OnlyIfAsked d [] = Unit {0}
OnlyIfAsked d (x ∷ xs) =
    (is_quantized_kv_cache x.kv_cache_dtype ≡ true → is_quantized_kv_cache d ≡ true)
    × OnlyIfAsked d xs

layers-OnlyIfAsked :
    (d : String) (ls : List AttentionLayer) (config : CacheConfig)
    → (is_quantized_kv_cache config.cache_dtype ≡ true → is_quantized_kv_cache d ≡ true)
    → OnlyIfAsked d (all_layers false ls config).0
unfolding all_layers attention_dtype honours
layers-OnlyIfAsked d [] config h = tt
layers-OnlyIfAsked d (l ∷ ls) config h =
    (ground (arith, auto_unquantized), layers-OnlyIfAsked d ls _ ground arith)

-- On a device without FP8 support and without the override, no layer gets a quantized KV cache that
-- was not asked for: neither the checkpoint's configuration nor a layer's own scheme brings one in.
pub unasked_unquantized :
    (d : String) (config : Option QuantConfig) (ls : List AttentionLayer) (scales : Bool)
    (skips : List String)
    → let allowed = checkpoint_kv_quant_allowed false (capable false) in
      OnlyIfAsked d
        (all_layers allowed ls (record {
          cache_dtype = resolve_kv_cache_dtype_string allowed d config;
          calculate_kv_scales = scales;
          skip_layers = skips;
        })).0
unfolding checkpoint_kv_quant_allowed
unasked_unquantized d config ls scales skips =
    layers-OnlyIfAsked d ls _ (resolve_quantized d config)

-- Every layer has the dtype `d`, but for the skipped ones, which have "auto".
abbrev pub AreExplicit : String → List String → List AttentionLayer → List LayerDtype → Type 0
AreExplicit d skips [] [] = Unit {0}
AreExplicit d skips (l ∷ ls) (x ∷ xs) =
    (x.kv_cache_dtype ≡ (if is_skipped skips l then "auto" else d)) × AreExplicit d skips ls xs
AreExplicit d skips _ _ = ⊥

attention_kept :
    (allowed : Bool) (l : AttentionLayer) (c : CacheConfig)
    → same_text c.cache_dtype "auto" ≡ false
    → ((attention_dtype allowed l c).1 ≡ c)
      × ((attention_dtype allowed l c).0.kv_cache_dtype
          ≡ (if is_skipped c.skip_layers l then "auto" else c.cache_dtype))
unfolding attention_dtype honours
attention_kept allowed l c h = ground arith

layers-AreExplicit :
    (allowed : Bool) (ls : List AttentionLayer) (c : CacheConfig)
    → same_text c.cache_dtype "auto" ≡ false
    → AreExplicit c.cache_dtype c.skip_layers ls (all_layers allowed ls c).0
      × ((all_layers allowed ls c).1 ≡ c)
unfolding all_layers
layers-AreExplicit allowed [] c h = (tt, refl)
layers-AreExplicit allowed (l ∷ ls) c h =
    let (kept, dtype) = attention_kept allowed l c h in
    let (rest, same) =
      subst
        (λ c'.
          AreExplicit c.cache_dtype c.skip_layers ls (all_layers allowed ls c').0
          × ((all_layers allowed ls c').1 ≡ c))
        (sym kept) (layers-AreExplicit allowed ls c h) in
    ((dtype, rest), same)

-- A dtype that is asked for by name wins over every scheme, on every device: the layers that are
-- not skipped have it, the skipped ones have "auto", and the shared configuration stays as it was.
pub explicit_wins :
    (allowed : Bool) (d : String) (config : Option QuantConfig) (ls : List AttentionLayer)
    (scales : Bool) (skips : List String)
    → same_text d "auto" ≡ false
    → let c : CacheConfig = record {
      cache_dtype = resolve_kv_cache_dtype_string allowed d config;
      calculate_kv_scales = scales;
      skip_layers = skips;
    } in
      AreExplicit d skips ls (all_layers allowed ls c).0 × ((all_layers allowed ls c).1 ≡ c)
unfolding resolve_kv_cache_dtype_string
explicit_wins allowed d config ls scales skips h =
    let asked : resolve_kv_cache_dtype_string allowed d config ≡ d = ground arith in
    subst
      (λ d'.
        let c : CacheConfig = record {
          cache_dtype = d';
          calculate_kv_scales = scales;
          skip_layers = skips;
        } in
        AreExplicit d skips ls (all_layers allowed ls c).0 × ((all_layers allowed ls c).1 ≡ c))
      (sym asked)
      (layers-AreExplicit allowed ls
        (record { cache_dtype = d; calculate_kv_scales = scales; skip_layers = skips }) h)

-- The names that a checkpoint's configuration can stand for.
pub quant_algo_known :
    (c : QuantConfig) {name : String}
    → get_kv_cache_quant_algo_string c ≡ some name
    → (name ≡ "fp8_e4m3") ⊎ (name ≡ "nvfp4") ⊎ (name ≡ "auto")
unfolding get_kv_cache_quant_algo_string algo_dtype mapped
quant_algo_known c h = ground arith
