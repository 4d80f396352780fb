-- ===== src/Flash/Forward/Routes.antt =====
-- Who serves a call of a layer.
use v100_skinny_unify.Prelude.{
  ℕ, ◌≤◌, ◌<◌, ◌≡◌, ◌⊎◌, refl, Bool, true, false, not, Option, some, ltb, ◌||◌, if◌then◌else◌,
  arith,
}
use v100_skinny_unify.Prelude.Options.{Option-cases}
use v100_skinny_unify.Flash.Cache.{Layout, DecodeCache}
use v100_skinny_unify.Flash.Forward.Settings.{Impl, supports_flash_v100_path, uses_fp8_kv_cache}
use v100_skinny_unify.Flash.Forward.{
  Route, zero_output, raises, shape_error, untouched, triton, with_prefix, dense_prefill,
  paged_prefill, dense_reference, scalar_paged, dense_cache, Reason, unsupported, dflash_draft,
  prefill, no_flash_decode, scalar_disabled, capture_smallq, prefix, paged_cache,
  small_query_decode_enabled, Call, decode_dense_cache, context, forward_prefill, forward_decode,
  forward,
}

module _ {V : Type 0} where
  -- What every decode on a flash route has.
  abbrev pub IsDecode : Impl → Call V → Type 0
  IsDecode impl c =
      (supports_flash_v100_path impl ≡ true)
      × (c.metadata.max_query_len ≤ 1)
      × (impl.use_flash_v100_decode ≡ true)

  abbrev pub IsPrefill : Impl → Call V → Type 0
  IsPrefill impl c = (supports_flash_v100_path impl ≡ true) × (1 < c.metadata.max_query_len)

  -- The switch of the dense cache, of a decode that is not captured.
  abbrev pub IsCached : Impl → Call V → Type 0
  IsCached impl c = (impl.use_decode_dense_cache ≡ true) × (c.is_capturing ≡ false)

  -- When a call goes to Triton, by the reason.
  abbrev pub GoesToTriton : Impl → Call V → Reason → Type 0
  GoesToTriton impl c unsupported =
      (supports_flash_v100_path impl ≡ false)
      × (impl.allow_triton_fallback ≡ true)
      × (c.is_dflash_draft_attn ≡ false)
  GoesToTriton impl c dflash_draft =
      (supports_flash_v100_path impl ≡ false) × (c.is_dflash_draft_attn ≡ true)
  GoesToTriton impl c prefill = IsPrefill impl c × (impl.use_triton_prefill ≡ true)
  GoesToTriton impl c no_flash_decode =
      (supports_flash_v100_path impl ≡ true)
      × (c.metadata.max_query_len ≤ 1)
      × (impl.use_flash_v100_decode ≡ false)
      × (impl.allow_triton_fallback ≡ true)
  GoesToTriton impl c scalar_disabled =
      IsDecode impl c × (impl.use_decode_scalar_paged ≡ false) × (impl.allow_triton_fallback ≡ true)

  -- Who may serve a call.
  abbrev pub IsAllowed : Impl → Call V → Route V → Type 0
  IsAllowed impl c zero_output = ⊥
  IsAllowed impl c raises =
      (impl.allow_triton_fallback ≡ false)
      × (((supports_flash_v100_path impl ≡ false) × (c.is_dflash_draft_attn ≡ false))
          ⊎ (c.metadata.max_query_len ≤ 1)
            × ((impl.use_flash_v100_decode ≡ false) ⊎ (impl.use_decode_scalar_paged ≡ false)))
  IsAllowed impl c (triton reason) = GoesToTriton impl c reason
  IsAllowed impl c shape_error = IsPrefill impl c ⊎ (IsDecode impl c × IsCached impl c)
  IsAllowed impl c untouched = IsDecode impl c × IsCached impl c
  IsAllowed impl c (with_prefix capture_smallq) =
      IsPrefill impl c
      × (c.is_capturing ≡ true)
      × (small_query_decode_enabled impl c.metadata ≡ true)
  IsAllowed impl c (with_prefix prefix) = IsPrefill impl c × (impl.use_triton_prefill ≡ false)
  IsAllowed impl c (with_prefix paged_cache) =
      IsPrefill impl c
      × (impl.use_triton_prefill ≡ false)
      × (impl.use_prefill_paged_cache ≡ true)
      × (impl.use_flash_v100_prefill_paged ≡ true)
  IsAllowed impl c dense_prefill = IsPrefill impl c × (impl.use_triton_prefill ≡ false)
  IsAllowed impl c paged_prefill =
      IsDecode impl c
      × (impl.use_flash_v100_prefill_paged ≡ true)
      × (c.is_capturing ≡ false)
      × ((impl.use_decode_paged_prefill ≡ true) ⊎ (impl.use_decode_dense_cache ≡ true))
  IsAllowed impl c dense_reference =
      IsDecode impl c
      × (c.is_capturing ≡ false)
      × ((impl.use_decode_dense_reference ≡ true)
          ⊎ ((impl.use_decode_dense_cache ≡ true) × (impl.use_flash_v100_prefill_paged ≡ false)))
  IsAllowed impl c (dense_cache tokens n) =
      IsDecode impl c × IsCached impl c × (uses_fp8_kv_cache impl.kv_cache_dtype ≡ false)
  IsAllowed impl c scalar_paged = IsDecode impl c × (impl.use_decode_scalar_paged ≡ true)

  pub branch :
      (test : Bool) (P : Route V → Type 0) (a b : Route V × DecodeCache V)
      → (test ≡ true → P a.0)
      → (test ≡ false → P b.0)
      → P (if test then a else b).0
  branch true P a b f g = f refl
  branch false P a b f g = g refl

  module _ (recast : Layout → Layout → Option (V → V)) (junk : ℕ → V) (impl : Impl) where
    prefill-IsAllowed :
        (c : Call V) (s : DecodeCache V)
        → supports_flash_v100_path impl ≡ true
        → 1 < c.metadata.max_query_len
        → IsAllowed impl c (forward_prefill recast junk impl c s).0
    unfolding forward_prefill
    prefill-IsAllowed c s h long = ground (arith, Option-cases (context recast junk impl c))

    dense-IsAllowed :
        (c : Call V) (s : DecodeCache V)
        → supports_flash_v100_path impl ≡ true
        → c.metadata.max_query_len ≤ 1
        → impl.use_flash_v100_decode ≡ true
        → impl.use_decode_dense_cache ≡ true
        → c.is_capturing ≡ false
        → IsAllowed impl c (decode_dense_cache recast junk impl c s).0
    unfolding decode_dense_cache
    dense-IsAllowed c s h short flash on eager = ground arith

    decode-IsAllowed :
        (c : Call V) (s : DecodeCache V)
        → supports_flash_v100_path impl ≡ true
        → c.metadata.max_query_len ≤ 1
        → IsAllowed impl c (forward_decode recast junk impl c s).0
    unfolding forward_decode
    decode-IsAllowed c s h short = ground (arith, dense-IsAllowed c s)

    -- Who serves a call. Triton: where the features are not supported, only with the fallback allowed
    -- or for a draft layer; for a prefill only by its switch; for a decode only with the fallback
    -- allowed, and no flash decode or the scalar kernel off. An exception of the dispatch: only with
    -- the fallback off, and the features not supported or a decode with no route. Every other route
    -- serves supported features, and a decode needs the flash decode. The bridges of a decode, which
    -- read on the host, never run under a capture: the dense cache only by its switch and for a cache
    -- that is not FP8, the paged prefill only with its operator and by its own switch or that of the
    -- dense cache, the dense reference only by its own switch or by that of the dense cache without the
    -- operator; the scalar kernel only by its switch. A prefill goes through the pages for want of
    -- context only with the operator and the switch for it, and as small queries only in a capture
    -- that these are enabled for.
    pub forward-IsAllowed :
        (c : Call V) (s : DecodeCache V) → IsAllowed impl c (forward recast junk impl (some c) s).0
    unfolding forward
    forward-IsAllowed c s =
        branch (not (supports_flash_v100_path impl)) (IsAllowed impl c) _ _
          (λ no_path.
            branch (not (impl.allow_triton_fallback || c.is_dflash_draft_attn)) (IsAllowed impl c) _
              _ (λ none_left. ground arith) (λ some_left. ground arith))
          (λ path.
            branch (ltb 1 c.metadata.max_query_len) (IsAllowed impl c) _ _
              (λ long. prefill-IsAllowed c s (ground arith) (ground arith))
              (λ short. decode-IsAllowed c s (ground arith) (ground arith)))
