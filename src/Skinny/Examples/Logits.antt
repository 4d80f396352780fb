-- ===== src/Skinny/Examples/Logits.antt =====
-- The lm_head at concrete inputs: 64 Ki rows, divided between two ranks, and 128 columns.
use v100_skinny_unify.Prelude.{
  ℕ, ◌+◌, ◌*◌, ◌/◌, ◌%◌, ◌≤◌, ◌<◌, ◌≡◌, refl, true, false, none, some, [], ◌∷◌, arith, inl,
}
use v100_skinny_unify.Tensor.{Tensor}
use v100_skinny_unify.Skinny.Env.{defaults}
use v100_skinny_unify.Skinny.Layer.{Fresh}
use v100_skinny_unify.Skinny.Route.{Call, kernel, float16}
use v100_skinny_unify.Skinny.LmHead.{
  Checkpoint, HeadEnv, Head, Hidden, embed_apply, after_calls, embed_pw, shard_of, weight_key,
  head_shape,
}
use v100_skinny_unify.Skinny.LmHead.Uncached.{answer}
use v100_skinny_unify.Skinny.LmHead.Cache.{calls-answer}
use v100_skinny_unify.Skinny.LmHead.Rows.{IsDecode, IsQpn2, same_launch}
use v100_skinny_unify.Skinny.LmHead.Shards.{shards-cover}
use v100_skinny_unify.Skinny.Wmma.Laws.{WmmaTakes, kernel-WmmaTakes}
use v100_skinny_unify.KvCache.Text.{is_among}
use v100_skinny_unify.Skinny.Examples.{zeros, bytes, both}

abbrev file : Checkpoint
file = record {
  keys = "model.norm.weight" ∷ "lm_head.weight" ∷ "lm_head.weight_scale" ∷ [];
  rows = λ key. 65536;
  codes = λ key. bytes;
  scales = λ key. bytes;
}

abbrev second_rank : HeadEnv
second_rank = record {
  native = true;
  path = some file;
  rank = 1;
  qpn_lmhead = true;
  qpn2_enabled = true;
}

abbrev new_buffers : Fresh
new_buffers = record { codes = zeros; scales = zeros }

-- A packing of a weight that is one number.
abbrev requantise : ℕ → Tensor × Tensor
requantise w = (record { numel = 0; at = λ _. w }, record { numel = 0; at = λ _. w })

abbrev lm_head : Head ℕ
lm_head = record {
  weight = 7;
  shape = some (32768 ∷ 128 ∷ []);
  is_parallel_lm_head = true;
  codes = none;
  qpn = none;
}

abbrev rows_of : ℕ → Hidden
rows_of m = record { m = m; dtype = float16; has_bias = false }

rows_of-IsDecode : (m : ℕ) → 1 ≤ m → m ≤ 8 → IsDecode (rows_of m)
rows_of-IsDecode m lo hi = record { half = refl; no_bias = refl; some_row = lo; few = hi }

calls-answer_example :
    (embed_apply second_rank new_buffers requantise
      (after_calls second_rank new_buffers requantise
        (embed_pw second_rank new_buffers requantise lm_head)
        (rows_of 8 ∷ rows_of 40 ∷ []))
      (rows_of 1)).1
    ≡ answer second_rank new_buffers requantise lm_head (rows_of 1)
calls-answer_example =
    calls-answer second_rank new_buffers requantise lm_head (rows_of 8 ∷ rows_of 40 ∷ [])
      (rows_of 1)

same_launch_example :
    let start = embed_pw second_rank new_buffers requantise lm_head in
    let a =
      (embed_apply second_rank new_buffers requantise
        (after_calls second_rank new_buffers requantise start (rows_of 40 ∷ []))
        (rows_of 1)).1 in
    let a' =
      (embed_apply second_rank new_buffers requantise
        (after_calls second_rank new_buffers requantise start [])
        (rows_of 8)).1 in
    IsQpn2 128 a × (a ≡ a')
unfolding head_shape
same_launch_example =
    same_launch second_rank new_buffers requantise lm_head 32768 128 refl refl refl refl
      (rows_of 40 ∷ []) [] (rows_of 1) (rows_of 8) (rows_of-IsDecode 1 (omega arith) (omega arith))
      (rows_of-IsDecode 8 (omega arith) (omega arith))

shards-cover_example :
    (40000 / 32768 < 2)
    × (p : Tensor × Tensor) × (shard_of (40000 / 32768) 32768 128 file ≡ some p)
    × ((j : ℕ) → p.0.at (40000 % 32768 * (128 / 2) + j) ≡ bytes (40000 * (128 / 2) + j))
    × ((j : ℕ) → p.1.at (40000 % 32768 * (128 / 16) + j) ≡ bytes (40000 * (128 / 16) + j))
unfolding weight_key is_among
shards-cover_example =
    shards-cover file 2 32768 128 40000 "lm_head.weight" refl refl (omega arith) (omega arith)

-- 12 rows on the checkpoint-native copy.
abbrev no_qpn : Call
no_qpn = record both { m = 12; qpn_numel = 0 }

kernel-WmmaTakes_example : WmmaTakes no_qpn (kernel defaults no_qpn)
kernel-WmmaTakes_example = kernel-WmmaTakes defaults no_qpn refl (inl (omega arith))
