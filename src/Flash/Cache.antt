-- ===== src/Flash/Cache.antt =====
-- The dense cache of the decoded sequence of fork_patches/flash_attn_v100.py: `_reset_decode_cache`,
-- `_ensure_decode_cache_capacity` and `_get_decode_kv_single_seq` of `FlashAttnV100Impl`. The two
-- tensors of the cache are allocated, written and dropped together, so that a row of the cache is one
-- value, the key and the value of a token.
pub mod Reads
pub mod Growth
use v100_skinny_unify.Prelude.{
  ℕ, zero, suc, ◌+◌, ◌-◌, ◌*◌, max, Bool, true, false, Option, none, some, List, ltb, leb, ◌==◌,
  ◌&&◌, if◌then◌else◌,
}
use v100_skinny_unify.Prelude.Options.{◌>>=◌}
use v100_skinny_unify.Prelude.Int.{ℤ}
use v100_skinny_unify.Flash.Pages.{extract_contiguous_kv}

-- The shape of a row, its dtype and its device.
pub record Layout : Type 0 where
  pub num_kv_heads : ℕ
  pub head_dim : ℕ
  pub dtype : ℕ
  pub device : ℕ

abbrev pub same_layout : Layout → Layout → Bool
same_layout a b =
    a.num_kv_heads == b.num_kv_heads
    && a.head_dim == b.head_dim
    && a.dtype == b.dtype
    && a.device == b.device

-- _decode_cache_k and _decode_cache_v
pub record Cached (V : Type 0) : Type 0 where
  pub layout : Layout
  pub tokens : ℕ → V

-- The attributes that begin with _decode_cache.
pub record DecodeCache (V : Type 0) : Type 0 where
  pub cached : Option (Cached V)
  pub len : ℕ
  pub capacity : ℕ

unfoldable pub reset : {V : Type 0} → DecodeCache V
reset = record { cached = none; len = 0; capacity = 0 }

-- out[lo:hi].copy_(values[: hi - lo])
unfoldable pub write_tokens : {V : Type 0} → ℕ → ℕ → (ℕ → V) → (ℕ → V) → ℕ → V
write_tokens lo hi values out i = if leb lo i && ltb i hi then values (i - lo) else out i

unfoldable pub is_allocated : {V : Type 0} → Option (Cached V) → Bool
is_allocated none = false
is_allocated (some c) = true

unfoldable pub has_layout : {V : Type 0} → Layout → Option (Cached V) → Bool
has_layout layout none = false
has_layout layout (some c) = same_layout c.layout layout

unfoldable pub new_capacity : ℕ → ℕ → ℕ
new_capacity required_len capacity = max required_len (max 16 (capacity * 2))

-- A call of `_get_decode_kv_single_seq`: `new_tokens` are the rows of `key` and `value`, with the
-- layout `key_layout`; `paged` are the slots of `kv_cache`, whose extraction has `paged_layout`.
pub record Decode (V : Type 0) : Type 0 where
  pub seq_len : ℕ
  pub q_len : ℕ
  pub key_layout : Layout
  pub paged_layout : Layout
  pub new_tokens : ℕ → V
  pub pages : ℕ
  pub block_size : ℕ
  pub paged : ℕ → V
  pub batch : List (List ℤ × ℕ)

-- `junk` is what `torch.empty` leaves. `recast a b` is what `copy_` makes of a row of layout a in a
-- tensor of layout b, or the error that the shapes do not fit.
module _ {V : Type 0} (recast : Layout → Layout → Option (V → V)) (junk : ℕ → V) where
  -- The rows of the new tensors.
  unfoldable pub moved : Layout → ℕ → Option (Cached V) → Option (ℕ → V)
  unfolding ◌>>=◌ write_tokens
  moved layout len none = some junk
  moved layout len (some c) =
      if ltb 0 len
      then (recast c.layout layout >>= λ cast.
          some (write_tokens 0 len (λ i. cast (c.tokens i)) junk))
      else some junk

  unfoldable pub ensure_capacity : ℕ → Layout → DecodeCache V → Option (DecodeCache V)
  unfolding ◌>>=◌ has_layout moved new_capacity
  ensure_capacity required_len layout s =
      if has_layout layout s.cached && leb required_len s.capacity
      then some s
      else (moved layout s.len s.cached >>= λ tokens. some (record s {
        cached = some (record { layout = layout; tokens = tokens });
        capacity = new_capacity required_len s.capacity;
      }))

  -- The rows from `lo` to `seq_len` are written, and those below `seq_len` are returned.
  unfoldable pub write_cached :
      ℕ → ℕ → (ℕ → V) → DecodeCache V → Option (Cached V) → Option ((ℕ → V) × DecodeCache V)
  unfolding write_tokens
  write_cached lo seq_len values s none = none
  write_cached lo seq_len values s (some c) =
      let tokens = write_tokens lo seq_len values c.tokens in
      some (tokens, record s { cached = some (record c { tokens = tokens }); len = seq_len })

  unfoldable pub is_hit : Decode V → DecodeCache V → Bool
  unfolding is_allocated
  is_hit d s = is_allocated s.cached && ltb s.len d.seq_len && d.seq_len == s.len + d.q_len

  -- By the loop of `_extract_contiguous_kv_from_paged_cache`; the CUDA extension, where it is there, is
  -- taken to copy the same tokens.
  unfoldable pub extracted : Decode V → ℕ → V
  unfolding extract_contiguous_kv
  extracted d = (extract_contiguous_kv d.pages d.block_size d.paged d.batch (0, junk)).1

  unfoldable pub get_decode_kv : Decode V → DecodeCache V → Option ((ℕ → V) × DecodeCache V)
  unfolding ◌>>=◌ is_hit ensure_capacity write_cached extracted
  get_decode_kv d s =
      if is_hit d s
      then (ensure_capacity d.seq_len d.key_layout s >>= λ t.
          write_cached t.len d.seq_len d.new_tokens t t.cached)
      else (ensure_capacity d.seq_len d.paged_layout s >>= λ t.
          write_cached 0 d.seq_len (extracted d) t t.cached)
