-- ===== src/Flash/Decode.antt =====
-- What the decode kernels of fork_patches/flash_attn_v100.py are told of the lengths:
-- `_decode_partition_size_for_metadata`, `_attach_decode_shape_hints` and
-- `_update_decode_active_num_partitions`. A sequence is decoded in partitions; how many are active is
-- in a buffer that a captured graph reads.
pub mod Partitions
use v100_skinny_unify.Prelude.{
  ℕ, zero, suc, ◌+◌, ◌-◌, ◌*◌, ◌/◌, min, max, Bool, true, false, not, Option, none, some, List, [],
  ◌∷◌, ltb, leb, ◌==◌, ◌&&◌, ◌||◌, if◌then◌else◌,
}
use v100_skinny_unify.Prelude.Options.{◌>>=◌}
use v100_skinny_unify.Prelude.Int.{ℤ, pos, negsuc}
use v100_skinny_unify.Flash.Pages.{cdiv_int}
use v100_skinny_unify.Flash.Smallq.{maximum}

abbrev pub default_partition_size : ℕ
default_partition_size = 256

unfoldable pub select_default_partition_size : Option ℕ → ℕ
select_default_partition_size none = default_partition_size
select_default_partition_size (some hint) = if leb 32768 (max 1 hint) then 1024 else 256

-- VLLM_FLASH_V100_DECODE_PARTITION_SIZE
pub data Setting : Type 0 where
  unset not_a_number : Setting
  number : ℤ → Setting

abbrev pub is_valid_size : ℕ → Bool
is_valid_size n = n == 256 || n == 512 || n == 1024

-- `none` is the ValueError.
unfoldable pub partition_size_for : Setting → Option ℕ → Option ℕ
unfolding select_default_partition_size
partition_size_for unset hint = some (select_default_partition_size hint)
partition_size_for not_a_number hint = none
partition_size_for (number (pos n)) hint = if is_valid_size n then some n else none
partition_size_for (number (negsuc n)) hint = none

pub record Hints : Type 0 where
  pub max_seq_len : Option ℕ
  pub workspace_seq_capacity : Option ℕ
  pub static_decode_seq : Option ℕ

abbrev pub no_hints : Hints
no_hints = record { max_seq_len = none; workspace_seq_capacity = none; static_decode_seq = none }

-- The metadata of a call: max_query_len, seq_lens_cpu if it is there, max_seq_len and the columns of
-- the block table if there is one.
pub record Lengths : Type 0 where
  pub max_query_len : ℕ
  pub seq_lens_cpu : Option (List ℕ)
  pub max_seq_len : ℕ
  pub block_cols : Option ℕ

abbrev pub longest : Option (List ℕ) → ℕ → ℕ
longest none max_seq_len = max_seq_len
longest (some []) max_seq_len = max_seq_len
longest (some (n ∷ ns)) max_seq_len = maximum (n ∷ ns)

abbrev pub raw_capacity : Option ℕ → ℕ → ℕ → ℕ
raw_capacity none block_size hint = hint
raw_capacity (some cols) block_size hint = cols * block_size

unfoldable pub static_hints : ℕ → ℕ → ℕ → Hints
static_hints raw max_seq_len hint =
    let workspace = min raw (max hint max_seq_len) in
    record {
      max_seq_len = some hint;
      workspace_seq_capacity = some workspace;
      static_decode_seq = if ltb hint raw || ltb hint workspace then some workspace else none;
    }

unfoldable pub decode_shape_hints : ℕ → Lengths → Bool → Hints
unfolding static_hints maximum
decode_shape_hints block_size l static_decode =
    let hint = longest l.seq_lens_cpu l.max_seq_len in
    if not (l.max_query_len == 1) || hint == 0
    then no_hints
    else if static_decode
    then static_hints (raw_capacity l.block_cols block_size hint) l.max_seq_len hint
    else record no_hints { max_seq_len = some hint }

-- Nothing is captured: there is no capacity, and the buffer has not been allocated.
abbrev pub uncaptured : Option ℕ → Option ℕ → Bool
uncaptured none none = true
uncaptured _ _ = false

unfoldable pub write_active : Setting → ℕ → Option (Option ℕ × Option ℕ)
unfolding partition_size_for cdiv_int
write_active setting hint = partition_size_for setting (some hint) >>= λ size.
    let active = max 1 (cdiv_int hint size) in some (some active, some active)

-- The buffer of the active partitions, if it has been allocated, and what the metadata say.
unfoldable pub update_active :
    Bool → Setting → Option ℕ → Option ℕ → Option ℕ → Option (Option ℕ × Option ℕ)
unfolding write_active
update_active false setting max_seq_len workspace buffer = some (buffer, none)
update_active true setting none workspace buffer = some (buffer, none)
update_active true setting (some hint) workspace buffer =
    if uncaptured workspace buffer then some (buffer, none) else write_active setting hint

-- The two calls, as the builder makes them.
unfoldable pub attach_decode :
    ℕ → Lengths → Bool → Bool → Setting → Option ℕ → Hints × Option (Option ℕ × Option ℕ)
unfolding decode_shape_hints update_active
attach_decode block_size l static_decode enabled setting buffer =
    let hints = decode_shape_hints block_size l static_decode in
    (hints, update_active enabled setting hints.max_seq_len hints.workspace_seq_capacity buffer)
