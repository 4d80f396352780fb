-- ===== src/Flash/Forward/Session/Moves.antt =====
-- What a call does to the dense cache.
use v100_skinny_unify.Prelude.{
  ℕ, ◌<◌, ◌≡◌, ◌⊎◌, refl, inl, inr, Bool, true, false, not, Option, none, some, min, ltb, ◌==◌,
  ◌&&◌, ◌||◌, if◌then◌else◌, arith,
}
use v100_skinny_unify.Prelude.Lists.{get_or}
use v100_skinny_unify.Flash.Cache.{Layout, DecodeCache, reset, get_decode_kv}
use v100_skinny_unify.Flash.Forward.Session.{single, NotRead, resets}
use v100_skinny_unify.Flash.Forward.Settings.{Impl, uses_fp8_kv_cache, supports_flash_v100_path}
use v100_skinny_unify.Flash.Forward.{
  on_host, Call, Reason, no_flash_decode, scalar_disabled, Route, raises, untouched, triton,
  paged_prefill, dense_reference, scalar_paged, decode_of, small_query_decode_enabled, run_dense,
  after_context, decode_dense_cache, context, forward_prefill, forward_decode, forward,
}

not-false : (b : Bool) → not b ≡ false → b ≡ true
not-false true e = refl
not-false false e = cc

module _ {V : Type 0} (recast : Layout → Layout → Option (V → V)) (junk : ℕ → V) (impl : Impl) where
  branch :
      (test : Bool) (P : Route V × DecodeCache V → Type 0) (a b : Route V × DecodeCache V)
      → (test ≡ true → P a)
      → (test ≡ false → P b)
      → P (if test then a else b)
  branch true P a b f g = f refl
  branch false P a b f g = g refl

  -- What a call does to the cache.
  abbrev pub Moves : Call V → DecodeCache V → Route V × DecodeCache V → Type 0
  Moves c s r =
      ((resets recast junk impl c ≡ true) × (r.1 ≡ reset) × NotRead c r.0)
      ⊎ ((resets recast junk impl c ≡ false) × (r.1 ≡ s) × NotRead c r.0)
      ⊎ ((resets recast junk impl c ≡ false)
          × (single c ≡ true)
          × (r
              ≡ run_dense recast junk impl (get_or c.metadata.seq_lens 0 0)
                  (get_or (on_host c.metadata.seq_lens_cpu c.metadata.seq_lens) 0 0) s
                  (get_decode_kv recast junk (decode_of c) s)))

  module _ (c : Call V) (s : DecodeCache V) where
    context-Moves :
        (o : Option Bool)
        → context recast junk impl c ≡ o
        → supports_flash_v100_path impl ≡ true
        → 1 < c.metadata.max_query_len
        → impl.use_triton_prefill ≡ false
        → (c.is_capturing && small_query_decode_enabled impl c.metadata) ≡ false
        → Moves c s (after_context recast junk impl o s)
    context-Moves none e path long no_triton other = inr (inl (ground arith, refl, long))
    context-Moves (some true) e path long no_triton other = ground arith
    context-Moves (some false) e path long no_triton other = ground arith

    prefill-Moves :
        supports_flash_v100_path impl ≡ true
        → 1 < c.metadata.max_query_len
        → Moves c s (forward_prefill recast junk impl c s)
    unfolding forward_prefill
    prefill-Moves path long =
        branch impl.use_triton_prefill (Moves c s) _ _ (λ asked. ground arith)
          (λ no_triton.
            branch (c.is_capturing && small_query_decode_enabled impl c.metadata) (Moves c s) _ _
              (λ small. ground arith)
              (λ other. context-Moves (context recast junk impl c) refl path long no_triton other))

    stays-Moves : (r : Route V) → NotRead c r → resets recast junk impl c ≡ false → Moves c s (r, s)
    stays-Moves r h stays = inr (inl (stays, refl, h))

    bridge-NotRead : (b : Bool) → NotRead c (if b then paged_prefill else dense_reference)
    bridge-NotRead true = tt
    bridge-NotRead false = tt

    dense-Moves :
        resets recast junk impl c ≡ false → Moves c s (decode_dense_cache recast junk impl c s)
    unfolding decode_dense_cache decode_of
    dense-Moves stays =
        branch (uses_fp8_kv_cache impl.kv_cache_dtype) (Moves c s) _ _
          (λ fp8. stays-Moves _ (bridge-NotRead impl.use_flash_v100_prefill_paged) stays)
          (λ wide.
            branch (min c.metadata.num_actual_tokens c.query_rows == 0) (Moves c s) _ _
              (λ no_rows. stays-Moves untouched tt stays)
              (λ some_rows.
                branch (not (single c)) (Moves c s) _ _
                  (λ many. stays-Moves _ (bridge-NotRead impl.use_flash_v100_prefill_paged) stays)
                  (λ one. inr (inr (stays, not-false (single c) one, refl)))))

    decode-Moves :
        resets recast junk impl c ≡ false → Moves c s (forward_decode recast junk impl c s)
    unfolding forward_decode
    decode-Moves stays =
        let fallback = λ (reason : Reason).
          branch (not impl.allow_triton_fallback) (Moves c s) (raises, s) (triton reason, s)
            (λ off. stays-Moves raises tt stays) (λ on. stays-Moves (triton reason) tt stays) in
        branch (not impl.use_flash_v100_decode) (Moves c s) _ _ (λ no_op. fallback no_flash_decode)
          (λ op.
            branch
              (impl.use_decode_paged_prefill
                && impl.use_flash_v100_prefill_paged
                && not c.is_capturing)
              (Moves c s) _ _ (λ paged. stays-Moves paged_prefill tt stays)
              (λ other.
                branch (impl.use_decode_dense_cache && not c.is_capturing) (Moves c s) _ _
                  (λ dense. dense-Moves stays)
                  (λ other.
                    branch (impl.use_decode_dense_reference && not c.is_capturing) (Moves c s) _ _
                      (λ reference. stays-Moves dense_reference tt stays)
                      (λ other.
                        branch (not impl.use_decode_scalar_paged) (Moves c s) _ _
                          (λ disabled. fallback scalar_disabled)
                          (λ scalar. stays-Moves scalar_paged tt stays)))))

    pub forward-Moves : Moves c s (forward recast junk impl (some c) s)
    unfolding forward
    forward-Moves =
        branch (not (supports_flash_v100_path impl)) (Moves c s) _ _
          (λ no_path.
            branch (not (impl.allow_triton_fallback || c.is_dflash_draft_attn)) (Moves c s) _ _
              (λ off. stays-Moves raises tt (ground arith))
              (λ on. stays-Moves (triton _) tt (ground arith)))
          (λ path.
            branch (ltb 1 c.metadata.max_query_len) (Moves c s) _ _
              (λ long. prefill-Moves (ground arith) (ground arith))
              (λ short. decode-Moves (ground arith)))
