-- ===== src/Flash/Examples/Serving.antt =====
-- The theorems on the dispatch at concrete inputs: a layer with the dense decode cache on, a sequence
-- that is decoded from 5 to 6 tokens in pages of 4, another one that is decoded behind it, and a
-- prefill of three sequences.
use v100_skinny_unify.Prelude.{
  ℕ, ◌+◌, ◌-◌, ◌≤◌, ◌<◌, ◌*◌, ◌≡◌, ◌==◌, ==_iff, every_under, every_under_at, refl, true, false,
  Option, none, some, List, [], ◌∷◌, min, arith,
}
use mathlib.Core.Path.{subst}
use v100_skinny_unify.Prelude.Int.{pos}
use v100_skinny_unify.Prelude.Options.{◌>>=◌, some_injective}
use v100_skinny_unify.Queries.{query_lens}
use v100_skinny_unify.Flash.Smallq.{maximum}
use v100_skinny_unify.Flash.Pages.Extract.{token}
use v100_skinny_unify.Flash.Cache.{
  Layout, DecodeCache, reset, write_tokens, is_allocated, is_hit, has_layout, ensure_capacity,
  write_cached, get_decode_kv,
}
use v100_skinny_unify.Flash.Cache.Reads.{Serves}
use v100_skinny_unify.Flash.Cache.Growth.{IsCall, AreSmall, after_decodes, after_decodes-AreSmall}
use v100_skinny_unify.Flash.Dense.{dense_prefill}
use v100_skinny_unify.Flash.Dense.Runs.{IsPrefilled, dense_prefill-IsPrefilled}
use v100_skinny_unify.Flash.Forward.Settings.{
  Impl, env_is, differs_from_zero, init, uses_fp8_kv_cache, supports_flash_v100_path,
}
use v100_skinny_unify.Flash.Forward.{
  CommonLens, attach_common, has_prefix_context, expects_more, any_differs, differ,
  small_query_decode_enabled, Call, Route, decode_of, decode_dense_cache, available_query_tokens,
  context, forward_prefill, forward_decode, forward,
}
use v100_skinny_unify.Flash.Forward.Routes.{IsAllowed, forward-IsAllowed}
use v100_skinny_unify.Flash.Forward.Prefix.{AllLe, IsCommon, with_common, dense-IsWhole}
use v100_skinny_unify.Flash.Forward.Session.{AreRead}
use v100_skinny_unify.Flash.Forward.Session.Reads.{session-AreRead}
use v100_skinny_unify.Flash.Forward.Session.Stale.{LooksLike, forward-stale}

abbrev layout : Layout
layout = record { num_kv_heads = 2; head_dim = 128; dtype = 0; device = 0 }

abbrev recast : Layout → Layout → Option (ℕ → ℕ)
recast from to = some (λ v. v)

abbrev junk : ℕ → ℕ
junk i = 99

abbrev impl : Impl
unfolding init env_is differs_from_zero
impl =
    init (record { flash_attn = true; decode_paged = true; prefill_paged = true })
      (record { is_decoder = true; no_alibi_slopes = true; no_soft_cap = true; no_sinks = true })
      "auto"
      (record {
        enable_paged_prefill = none;
        disable_paged_prefill = none;
        prefill_use_paged_cache = none;
        prefill_use_triton = none;
        allow_triton_fallback = none;
        smallq_decode_max_q = none;
        smallq_decode_max_model_len = none;
        decode_dense_reference = none;
        decode_dense_cache = some "1";
        decode_use_paged_prefill = none;
        decode_use_scalar_paged = none;
      })

-- A decode of one sequence whose tokens are those from `base` on.
abbrev decode_call : ℕ → ℕ → Call ℕ
decode_call base seq_len = record {
  is_dflash_draft_attn = false;
  is_capturing = false;
  query_rows = 1;
  key_rows = 1;
  value_rows = 1;
  output_rows = 1;
  metadata = record {
    max_query_len = 1;
    num_actual_tokens = 1;
    query_start_loc = 0 ∷ 1 ∷ [];
    query_start_loc_cpu = some (0 ∷ 1 ∷ []);
    seq_lens = seq_len ∷ [];
    seq_lens_cpu = some (seq_len ∷ []);
    causal = true;
    max_model_len = 64;
  };
  key_layout = layout;
  paged_layout = layout;
  new_tokens = λ j. base + (seq_len - 1) + j;
  pages = 2;
  block_size = 4;
  paged = λ i. base + i;
  block_table = (pos 0 ∷ pos 1 ∷ []) ∷ [];
}

abbrev first_tokens : ℕ → ℕ
first_tokens i = 0 + i

in_pages :
    every_under 6 (λ i. token 2 4 first_tokens (pos 0 ∷ pos 1 ∷ []) i == first_tokens i) ≡ true
unfolding every_under
in_pages = refl

serves : (n : ℕ) → 0 < n → n ≤ 6 → Serves layout first_tokens (decode_of (decode_call 0 n))
unfolding decode_of
serves n some_token short = record {
  row = pos 0 ∷ pos 1 ∷ [];
  one_sequence = refl;
  some_slot = omega arith;
  in_pages = λ i lt. (==_iff _ _).0 (every_under_at 6 _ (omega arith) in_pages);
  in_range = omega arith;
  in_call = λ j lt. omega arith;
  key_is = refl;
  paged_is = refl;
}

abbrev session : List (Call ℕ × (ℕ → ℕ))
session = (decode_call 0 5, first_tokens) ∷ (decode_call 0 6, first_tokens) ∷ []

session-AreRead_example : AreRead recast junk impl layout reset session
unfolding impl supports_flash_v100_path uses_fp8_kv_cache
session-AreRead_example =
    session-AreRead recast junk impl layout refl session (
      (tt, serves 5 (omega arith) (omega arith)),
      ((refl, serves 6 (omega arith) (omega arith)), tt),
    )

-- Behind the 5 tokens of the first sequence, a decode to 6 tokens of another one.
abbrev five : DecodeCache ℕ
five = record {
  cached = some (record { layout = layout; tokens = first_tokens });
  len = 5;
  capacity = 16;
}

abbrev mixed_up : ℕ → ℕ
unfolding write_tokens
mixed_up = write_tokens 5 6 (λ j. 1000 + 5 + j) first_tokens

other-LooksLike :
    LooksLike recast junk layout refl first_tokens five (decode_of (decode_call 1000 6))
unfolding decode_of
other-LooksLike = record {
  cache = record { layout = layout; tokens = first_tokens };
  is_cached = refl;
  holds = (refl, omega arith, λ i lt. refl);
  longer = omega arith;
  lens_fit = omega arith;
  key_is = refl;
}

other_is_read :
    (forward recast junk impl (some (decode_call 1000 6)) five).0 ≡ Route.dense_cache mixed_up 6
unfolding impl forward forward_decode decode_dense_cache get_decode_kv is_hit is_allocated
    ensure_capacity has_layout write_cached write_tokens decode_of supports_flash_v100_path
    uses_fp8_kv_cache ◌>>=◌
other_is_read = refl

forward-stale_example : mixed_up 3 ≡ 3
forward-stale_example =
    forward-stale recast junk layout refl impl first_tokens (decode_call 1000 6) five mixed_up 6
      other-LooksLike other_is_read 3 (omega arith)

is_call : (base n : ℕ) → n ≤ 8 → IsCall recast junk layout refl 8 (decode_of (decode_call base n))
unfolding decode_of
is_call base n short = record { key_is = refl; paged_is = refl; short = short }

after_decodes-AreSmall_example : AreSmall recast junk layout refl 8 (
    after_decodes recast junk
      (decode_of (decode_call 0 5) ∷ decode_of (decode_call 0 6) ∷ decode_of (decode_call 9 8) ∷ [])
      (0, reset))
after_decodes-AreSmall_example =
    after_decodes-AreSmall recast junk layout refl 8
      (decode_of (decode_call 0 5) ∷ decode_of (decode_call 0 6) ∷ decode_of (decode_call 9 8) ∷ [])
      (is_call 0 5 (omega arith), (is_call 0 6 (omega arith), (is_call 9 8 (omega arith), tt)))

forward-IsAllowed_example :
    IsAllowed impl (decode_call 0 5) (forward recast junk impl (some (decode_call 0 5)) reset).0
forward-IsAllowed_example = forward-IsAllowed recast junk impl (decode_call 0 5) reset

-- A kernel that adds the length of the sequence to each row.
abbrev attn : ℕ → ℕ → (ℕ → ℕ) → ℕ → ℕ
attn n l y k = y k + l

abbrev rows : ℕ → ℕ
rows i = 10 * i

dense_prefill-IsPrefilled_example :
    IsPrefilled attn rows 9 0
      (2 ∷ 4 ∷ 4 ∷ 7 ∷ [])
      junk
      (dense_prefill attn rows 9 (0 ∷ 2 ∷ 4 ∷ 4 ∷ 7 ∷ []) junk)
dense_prefill-IsPrefilled_example =
    dense_prefill-IsPrefilled attn rows 9 0 (2 ∷ 4 ∷ 4 ∷ 7 ∷ []) junk (λ n l r j y below lt. refl)
      (omega arith) (omega arith)

-- Three whole sequences, whose lengths on the host are bounds.
abbrev common : CommonLens
common = record { exact = none; upper_bound = some (2 ∷ 2 ∷ 3 ∷ []); copied = 2 ∷ 2 ∷ 3 ∷ [] }

abbrev prefill_call : Call ℕ
prefill_call = record (decode_call 0 5) {
  query_rows = 7;
  key_rows = 7;
  value_rows = 7;
  output_rows = 8;
  metadata = record {
    max_query_len = 3;
    num_actual_tokens = 7;
    query_start_loc = 0 ∷ 2 ∷ 4 ∷ 7 ∷ [];
    query_start_loc_cpu = none;
    seq_lens = 2 ∷ 2 ∷ 3 ∷ [];
    seq_lens_cpu = none;
    causal = true;
    max_model_len = 64;
  };
}

common-IsCommon : IsCommon common (0 ∷ 2 ∷ 4 ∷ 7 ∷ []) (2 ∷ 2 ∷ 3 ∷ [])
unfolding query_lens
common-IsCommon = record {
  exact_is = λ l e. absurd (ground arith);
  bound_is = λ l e. subst (AllLe (2 ∷ 2 ∷ 3 ∷ [])) (some_injective e) (omega arith);
  copied_is = refl;
  has_query = omega arith;
}

is_dense :
    (forward recast junk impl
      (some (with_common recast junk impl common (0 ∷ 2 ∷ 4 ∷ 7 ∷ []) prefill_call))
      five).0
    ≡ Route.dense_prefill
unfolding impl forward forward_prefill small_query_decode_enabled context has_prefix_context
    expects_more any_differs differ available_query_tokens attach_common query_lens maximum
    supports_flash_v100_path uses_fp8_kv_cache
is_dense = refl

dense-IsWhole_example :
    (query_lens (0 ∷ 2 ∷ 4 ∷ 7 ∷ []) ≡ prefill_call.metadata.seq_lens)
    × IsPrefilled attn rows
        (min 7 (available_query_tokens recast junk impl prefill_call))
        0
        (2 ∷ 4 ∷ 7 ∷ [])
        junk
        (dense_prefill attn rows
          (min 7 (available_query_tokens recast junk impl prefill_call))
          (0 ∷ 2 ∷ 4 ∷ 7 ∷ [])
          junk)
dense-IsWhole_example =
    dense-IsWhole recast junk impl attn rows junk common 0 2 (4 ∷ 7 ∷ []) prefill_call five
      (λ n l r j y below lt. refl) common-IsCommon (omega arith) (omega arith) is_dense
