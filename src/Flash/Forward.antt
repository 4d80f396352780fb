-- ===== src/Flash/Forward.antt =====
-- The dispatch of fork_patches/flash_attn_v100.py: the switches of `FlashAttnV100Impl.__init__`, what
-- `_attach_common_flash_metadata` leaves in the metadata, the tests of `forward` on them, and
-- `forward` with `_flash_v100_decode_dense_cache`. A route is the function that a call ends in; the
-- kernels and Triton's forward run outside this repository.
pub mod Settings
pub mod Routes
pub mod Prefix
pub mod Capture
pub mod Session
use v100_skinny_unify.Prelude.{
  ℕ, zero, suc, ◌+◌, ◌-◌, min, Bool, true, false, not, Option, none, some, List, [], ◌∷◌, ltb, leb,
  ◌==◌, ◌&&◌, ◌||◌, if◌then◌else◌,
}
use v100_skinny_unify.Prelude.Lists.{length, get_or}
use v100_skinny_unify.Prelude.Int.{ℤ}
use v100_skinny_unify.Queries.{query_lens, last_or}
use v100_skinny_unify.Flash.Smallq.{maximum}
use v100_skinny_unify.Flash.Cache.{Layout, DecodeCache, Decode, reset, get_decode_kv}
use v100_skinny_unify.Flash.Forward.Settings.{Impl, supports_flash_v100_path, uses_fp8_kv_cache}

-- The lists that end in _cpu are copies on the host, which may be missing.
pub record Metadata : Type 0 where
  pub max_query_len : ℕ
  pub num_actual_tokens : ℕ
  pub query_start_loc : List ℕ
  pub query_start_loc_cpu : Option (List ℕ)
  pub seq_lens : List ℕ
  pub seq_lens_cpu : Option (List ℕ)
  pub causal : Bool
  pub max_model_len : ℕ

-- The lengths of the common metadata: `_seq_lens_cpu`, `seq_lens_cpu_upper_bound`, and
-- `seq_lens_cpu`, which copies the lengths of the device.
pub record CommonLens : Type 0 where
  pub exact : Option (List ℕ)
  pub upper_bound : Option (List ℕ)
  pub copied : List ℕ

abbrev pub first_of : Option (List ℕ) → Option (List ℕ) → List ℕ → List ℕ
first_of (some lens) _ _ = lens
first_of none (some lens) _ = lens
first_of none none lens = lens

unfoldable pub attach_common : CommonLens → List ℕ → Metadata → Metadata
attach_common common query_start_loc_cpu m = record m {
  query_start_loc_cpu = some query_start_loc_cpu;
  seq_lens_cpu = some (first_of common.exact common.upper_bound common.copied);
}

-- The copy on the host, or else the tensor of the device.
abbrev pub on_host : Option (List ℕ) → List ℕ → List ℕ
on_host (some locs) _ = locs
on_host none locs = locs

abbrev pub locations : Metadata → List ℕ
locations m = on_host m.query_start_loc_cpu m.query_start_loc

unfoldable pub differ : List ℕ → List ℕ → Bool
differ [] _ = false
differ (q ∷ qs) [] = false
differ (q ∷ qs) (s ∷ ss) = not (q == s) || differ qs ss

unfoldable pub differs_from : ℕ → List ℕ → Bool
differs_from n [] = false
differs_from n (m ∷ ms) = not (n == m) || differs_from n ms

-- torch.any(a != b), where one row is compared with all and other shapes are an error
unfoldable pub any_differs : List ℕ → List ℕ → Option Bool
unfolding differ differs_from
any_differs qs ss =
    if length qs == length ss
    then some (differ qs ss)
    else if length ss == 1
    then some (differs_from (get_or ss 0 0) qs)
    else if length qs == 1
    then some (differs_from (get_or qs 0 0) ss)
    else none

-- not torch.equal(a, b)
abbrev pub unequal : List ℕ → List ℕ → Bool
unequal qs ss = not (length qs == length ss) || differ qs ss

-- The locations rise, so that no length is negative.
abbrev pub context_by : Option (List ℕ) → Option (List ℕ) → Metadata → Option Bool
context_by (some locs) (some lens) m = any_differs (query_lens locs) lens
context_by _ _ m = some (unequal (query_lens m.query_start_loc) m.seq_lens)

unfoldable pub has_prefix_context : Metadata → Option Bool
unfolding query_lens any_differs
has_prefix_context m = context_by m.query_start_loc_cpu m.seq_lens_cpu m

unfoldable pub expects_more : Metadata → ℕ → Bool
expects_more m available =
    if leb (length (locations m)) 1 then false else ltb available (last_or 0 (locations m))

unfoldable pub small_query_decode_enabled : Impl → Metadata → Bool
unfolding query_lens maximum
small_query_decode_enabled impl m =
    if not m.causal || not impl.use_flash_v100_decode || impl.smallq_decode_max_query_len == 0
    then false
    else if leb (length (locations m)) 1
    then false
    else leb (maximum (query_lens (locations m))) impl.smallq_decode_max_query_len
      && (impl.smallq_decode_max_model_len == 0
          || leb m.max_model_len impl.smallq_decode_max_model_len)

-- A call of a layer. `key_layout`, `new_tokens` are those of the keys and values, the others those
-- of the paged cache and the block table.
pub record Call (V : Type 0) : Type 0 where
  pub is_dflash_draft_attn : Bool
  pub is_capturing : Bool
  pub query_rows : ℕ
  pub key_rows : ℕ
  pub value_rows : ℕ
  pub output_rows : ℕ
  pub metadata : Metadata
  pub key_layout : Layout
  pub paged_layout : Layout
  pub new_tokens : ℕ → V
  pub pages : ℕ
  pub block_size : ℕ
  pub paged : ℕ → V
  pub block_table : List (List ℤ)

pub data Reason : Type 0 where
  unsupported dflash_draft prefill no_flash_decode scalar_disabled : Reason

pub data PrefixReason : Type 0 where
  capture_smallq prefix paged_cache : PrefixReason

-- Where a call ends: `raises` and `shape_error` are exceptions, of the dispatch and of torch;
-- `untouched` returns the output as it is; `dense_cache` runs the dense kernel on that many of the
-- tokens.
pub data Route (V : Type 0) : Type 0 where
  zero_output raises shape_error untouched : Route V
  triton : Reason → Route V
  with_prefix : PrefixReason → Route V
  dense_prefill paged_prefill dense_reference scalar_paged : Route V
  dense_cache : (ℕ → V) → ℕ → Route V

abbrev pub zip_rows : List (List ℤ) → List ℕ → List (List ℤ × ℕ)
zip_rows [] _ = []
zip_rows (row ∷ rows) [] = []
zip_rows (row ∷ rows) (n ∷ ns) = (row, n) ∷ zip_rows rows ns

unfoldable pub decode_of : {V : Type 0} → Call V → Decode V
decode_of c =
    let m = c.metadata in
    record {
      seq_len = get_or m.seq_lens 0 0;
      q_len = m.num_actual_tokens;
      key_layout = c.key_layout;
      paged_layout = c.paged_layout;
      new_tokens = c.new_tokens;
      pages = c.pages;
      block_size = c.block_size;
      paged = c.paged;
      batch = zip_rows c.block_table m.seq_lens;
    }

module _ {V : Type 0} (recast : Layout → Layout → Option (V → V)) (junk : ℕ → V) (impl : Impl) where
  -- What the kernel runs on; `host_len` is the length on the host.
  abbrev pub run_dense :
      ℕ → ℕ → DecodeCache V → Option ((ℕ → V) × DecodeCache V) → Route V × DecodeCache V
  run_dense seq_len host_len s none = (shape_error, s)
  run_dense seq_len host_len s (some (tokens, t)) = (dense_cache tokens (min seq_len host_len), t)

  abbrev pub bridge : Route V
  bridge = if impl.use_flash_v100_prefill_paged then paged_prefill else dense_reference

  unfoldable pub decode_dense_cache : Call V → DecodeCache V → Route V × DecodeCache V
  unfolding decode_of uses_fp8_kv_cache
  decode_dense_cache c s =
      let m = c.metadata in
      let seq_lens_host = on_host m.seq_lens_cpu m.seq_lens in
      let d = decode_of c in
      if uses_fp8_kv_cache impl.kv_cache_dtype
      then (bridge, s)
      else if min m.num_actual_tokens c.query_rows == 0
      then (untouched, s)
      else if not (min (length (locations m) - 1) (length seq_lens_host) == 1)
      then (bridge, s)
      else run_dense d.seq_len (get_or seq_lens_host 0 0) s (get_decode_kv recast junk d s)

  abbrev pub after_context : Option Bool → DecodeCache V → Route V × DecodeCache V
  after_context none s = (shape_error, s)
  after_context (some true) s = (with_prefix prefix, reset)
  after_context (some false) s =
      if impl.use_prefill_paged_cache && impl.use_flash_v100_prefill_paged
      then (with_prefix paged_cache, reset)
      else (dense_prefill, reset)

  unfoldable pub available_query_tokens : Call V → ℕ
  available_query_tokens c = min c.query_rows (min c.key_rows (min c.value_rows c.output_rows))

  -- has_prefix_context of `forward`
  unfoldable pub context : Call V → Option Bool
  unfolding has_prefix_context expects_more available_query_tokens
  context c =
      if expects_more c.metadata (available_query_tokens c)
      then some true
      else has_prefix_context c.metadata

  unfoldable pub forward_prefill : Call V → DecodeCache V → Route V × DecodeCache V
  unfolding small_query_decode_enabled context reset
  forward_prefill c s =
      if impl.use_triton_prefill
      then (triton prefill, reset)
      else if c.is_capturing && small_query_decode_enabled impl c.metadata
      then (with_prefix capture_smallq, s)
      else after_context (context c) s

  unfoldable pub forward_decode : Call V → DecodeCache V → Route V × DecodeCache V
  unfolding decode_dense_cache
  forward_decode c s =
      if not impl.use_flash_v100_decode
      then (if not impl.allow_triton_fallback then (raises, s) else (triton no_flash_decode, s))
      else if impl.use_decode_paged_prefill
          && impl.use_flash_v100_prefill_paged
          && not c.is_capturing
      then (paged_prefill, s)
      else if impl.use_decode_dense_cache && not c.is_capturing
      then decode_dense_cache c s
      else if impl.use_decode_dense_reference && not c.is_capturing
      then (dense_reference, s)
      else if not impl.use_decode_scalar_paged
      then (if not impl.allow_triton_fallback then (raises, s) else (triton scalar_disabled, s))
      else (scalar_paged, s)

  -- `none` is a call with no metadata.
  unfoldable pub forward : Option (Call V) → DecodeCache V → Route V × DecodeCache V
  unfolding forward_prefill forward_decode supports_flash_v100_path
  forward none s = (zero_output, s)
  forward (some c) s =
      if not (supports_flash_v100_path impl)
      then (if not (impl.allow_triton_fallback || c.is_dflash_draft_attn)
          then (raises, s)
          else (triton (if c.is_dflash_draft_attn then dflash_draft else unsupported), s))
      else if ltb 1 c.metadata.max_query_len
      then forward_prefill c s
      else forward_decode c s
