-- ===== src/Flash/Dense.antt =====
-- `flash_v100_dense_prefill` of fork_patches/flash_attn_v100.py: neighbouring sequences of one length
-- are given to the kernel as one batch. `attn n l x` is the kernel on n sequences of l rows each, a
-- row being the query, the key and the value of a token.
pub mod Runs
use v100_skinny_unify.Prelude.{
  ℕ, zero, suc, ◌+◌, ◌-◌, ◌*◌, min, Option, none, some, List, [], ◌∷◌, ltb, ◌==◌, if◌then◌else◌,
}
use v100_skinny_unify.Prelude.Options.{◌>>=◌}
use v100_skinny_unify.Prelude.Lists.{length, get_or, drop}
use v100_skinny_unify.Flash.Cache.{write_tokens}

-- The inner loop: how many of the sequences after the one that ends at `b` have its length `l`.
unfoldable pub run_of : ℕ → ℕ → List ℕ → ℕ
run_of l b [] = 0
run_of l b (c ∷ locs) = if c - b == l then suc (run_of l c locs) else 0

-- `rows` is the number of rows that the query, the key, the value and the output have, and at most
-- num_actual_tokens.
module _ {X Y : Type 0} (attn : ℕ → ℕ → (ℕ → X) → ℕ → Y) (x : ℕ → X) (rows : ℕ) where
  -- One run, or the error of `view`. Where the locations fall no length is positive, here or there.
  unfoldable pub attend_run : ℕ → ℕ → ℕ → ℕ → (ℕ → Y) → Option (ℕ → Y)
  unfolding write_tokens
  attend_run tok_start tok_end batch_size run_seq_len out =
      if ltb 0 run_seq_len
      then (if min tok_end rows - min tok_start rows == batch_size * run_seq_len
          then some (
              write_tokens tok_start tok_end (attn batch_size run_seq_len (λ i. x (tok_start + i)))
                out)
          else none)
      else some out

  -- The outer loop, on the locations from `run_start` on.
  unfoldable pub dense_rounds : ℕ → List ℕ → (ℕ → Y) → Option (ℕ → Y)
  unfolding ◌>>=◌ run_of attend_run
  dense_rounds zero locs out = none
  dense_rounds (suc fuel) [] out = some out
  dense_rounds (suc fuel) (a ∷ []) out = some out
  dense_rounds (suc fuel) (a ∷ b ∷ locs) out =
      let run = run_of (b - a) b locs in
      attend_run a (get_or (b ∷ locs) run b) (1 + run) (b - a) out >>= λ out'.
      dense_rounds fuel (drop run (b ∷ locs)) out'

  -- One round for each sequence is enough.
  unfoldable pub dense_prefill : List ℕ → (ℕ → Y) → Option (ℕ → Y)
  unfolding dense_rounds
  dense_prefill query_start_loc out = dense_rounds (1 + length query_start_loc) query_start_loc out
