-- ===== src/Flash/Examples/Builds.antt =====
-- The theorems on the builds of the attention metadata at concrete inputs: decodes of two requests, with
-- pages of 16 tokens.
use v100_skinny_unify.Prelude.{
  ℕ, ◌≤◌, ◌<◌, ◌≡◌, refl, ◌⊎◌, true, false, Option, none, some, List, [], ◌∷◌, arith,
}
use v100_skinny_unify.Prelude.Options.{◌>>=◌}
use v100_skinny_unify.Prelude.Int.{pos}
use v100_skinny_unify.Queries.{query_lens}
use v100_skinny_unify.Flash.Live.{
  ramp, all_at_least, live_query_start_loc, normalize_query_start_loc,
}
use v100_skinny_unify.Flash.Live.Laws.{IsProjected, normalize-IsProjected}
use v100_skinny_unify.Flash.Pages.{cdiv_int}
use v100_skinny_unify.Flash.Smallq.{maximum, update_metadata, declines}
use v100_skinny_unify.Flash.Decode.{
  unset, Lengths, partition_size_for, select_default_partition_size, static_hints,
  decode_shape_hints, write_active, update_active, attach_decode,
}
use v100_skinny_unify.Flash.Decode.Partitions.{Covers, attach-Covers}
use v100_skinny_unify.Flash.Builder.{
  Draft, State, ensure_draft, build_for_drafting, Kind, stabilize, update_smallq, and_then,
  Settings, Call, attach, bind_rows, build_for_cudagraph_capture, refresh_draft, refresh_smallq,
  build, capture, runtime, drafting, run, after_builds,
}
use v100_skinny_unify.Flash.Builder.Held.{Holds, decode-Holds}

abbrev two_each : List ℕ
two_each = 0 ∷ 2 ∷ 4 ∷ []

projected : normalize_query_start_loc (0 ∷ 3 ∷ 6 ∷ []) 4 ≡ some two_each
unfolding normalize_query_start_loc live_query_start_loc ramp all_at_least query_lens
projected = refl

normalize-IsProjected_example :
    ((6 ≤ 4) × (two_each ≡ 0 ∷ 3 ∷ 6 ∷ [])) ⊎ ((4 < 6) × IsProjected (0 ∷ 3 ∷ 6 ∷ []) 4 two_each)
normalize-IsProjected_example = normalize-IsProjected (3 ∷ 6 ∷ []) 4 two_each projected

abbrev lengths : Lengths
lengths = record {
  max_query_len = 1;
  seq_lens_cpu = some (300 ∷ 700 ∷ []);
  max_seq_len = 900;
  block_cols = some 64;
}

abbrev three : Option ℕ
three = some 3

active : (attach_decode 16 lengths true true unset none).1 ≡ some (three, some 3)
unfolding attach_decode decode_shape_hints maximum static_hints update_active write_active
    partition_size_for select_default_partition_size cdiv_int ◌>>=◌
active = refl

attach-Covers_example :
    let r = attach_decode 16 lengths true true unset none in
    (hint : ℕ) × (size : ℕ) × (r.0.max_seq_len ≡ some hint)
    × (partition_size_for unset (some hint) ≡ some size)
    × (three ≡ some 3)
    × Covers size hint 3
attach-Covers_example = attach-Covers 16 lengths true true unset none three 3 active

abbrev settings : Settings
settings = record {
  config = record {
    max_query_len = 4;
    smallq_max_model_len = 0;
    max_model_len = 1024;
    max_capture_size = some 8;
    capture_sizes = [];
    max_num_seqs = 2;
    block_size = 16;
  };
  enabled = true;
  partition_size = unset;
  empty_rows = λ i. [];
  empty_lens = λ i. 7;
  empty_locations = λ i. 9;
}

abbrev decode : Call
decode = record {
  batch = record {
    max_query_len = 1;
    num_query_tokens = 2;
    num_reqs = 2;
    query_start_loc_cpu = 0 ∷ 1 ∷ 2 ∷ [];
    last = 2;
    seq_lens_cpu = 300 ∷ 700 ∷ [];
    query_start_loc = 0 ∷ 1 ∷ 2 ∷ [];
    seq_lens = 300 ∷ 700 ∷ [];
    block_table = (pos 3 ∷ []) ∷ (pos 4 ∷ []) ∷ [];
    block_cols = 64;
  };
  lengths = lengths;
  tree = false;
}

-- The same requests a step later.
abbrev next_decode : Call
next_decode = record decode {
  batch = record decode.batch {
    seq_lens = 301 ∷ 701 ∷ [];
    block_table = (pos 3 ∷ []) ∷ (pos 5 ∷ []) ∷ [];
  };
}

abbrev fresh : State
fresh = record { draft = none; allocations = 0; smallq = none; active = none }

abbrev between : List (Kind × Call)
between = (drafting, decode) ∷ (capture, decode) ∷ []

captured : (run settings (capture, decode) fresh).1 ≡ true
unfolding run build_for_cudagraph_capture bind_rows stabilize ensure_draft and_then attach
    attach_decode decode_shape_hints maximum static_hints update_active write_active
    partition_size_for select_default_partition_size cdiv_int ◌>>=◌
captured = refl

stepped :
    (run settings
      (runtime, next_decode)
      (after_builds settings between (run settings (capture, decode) fresh).0)).1
    ≡ true
unfolding run build build_for_cudagraph_capture build_for_drafting bind_rows refresh_draft
    refresh_smallq update_smallq update_metadata declines after_builds stabilize ensure_draft
    and_then attach attach_decode decode_shape_hints maximum static_hints update_active write_active
    partition_size_for select_default_partition_size cdiv_int ◌>>=◌
stepped = refl

decode-Holds_example :
    let s = (run settings (capture, decode) fresh).0 in
    (d : Draft) × (s.draft ≡ some d)
    × Holds decode.batch d
    × ((d' : Draft) × ((run settings
            (runtime, next_decode)
            (after_builds settings between s)).0.draft
          ≡ some d')
        × (d'.buffer ≡ d.buffer)
        × (d'.shape ≡ d.shape)
        × Holds next_decode.batch d')
decode-Holds_example =
    decode-Holds settings decode next_decode between fresh (omega arith) (omega arith) captured refl
      (omega arith) stepped
