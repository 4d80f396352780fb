-- ===== src/Gdn/Fast.antt =====
-- The persistent buffers of a full graph in fork_patches/gdn_attn.py: what
-- `_build_fast_pure_ddtree_full_graph` writes for a batch of one request, what `build` writes for the
-- speculative requests of any batch, and what it writes where no request is speculative. A graph
-- replays a number of rows, `batch_size`, of which those past the requests are padding. The fast
-- build fills the padding only if the last one had another shape, `tail_key`; with the buffers that
-- the builders share the key is theirs, `initialized_key`. The state of the model is one builder
-- with the buffers that it writes, its own or the shared ones (`shared`). By default a Triton kernel
-- does the writes of a fast build: Kernel.
pub mod Tails
pub mod Keys
pub mod Reach
pub mod Stale
pub mod Kernel
use v100_skinny_unify.Prelude.{
  ℕ, zero, suc, ◌+◌, ◌-◌, Bool, true, false, not, Option, none, some, List, [], ◌∷◌, leb, ltb, ◌==◌,
  ◌&&◌, ◌||◌, if◌then◌else◌,
}
use v100_skinny_unify.Prelude.Lists.{length, get_or, replicate}
use v100_skinny_unify.Queries.{last_or}

-- batch_size, query_len, width
abbrev pub GraphKey : Type 0
GraphKey = ℕ × ℕ × ℕ

abbrev pub equals_key : Option GraphKey → GraphKey → Bool
equals_key none key = false
equals_key (some (b, q, w)) (b', q', w') = b == b' && q == q' && w == w'

-- _GDNDdTreeFastCommonBuffers, without the index buffers
pub record Common : Type 0 where
  pub masks : ℕ → Bool
  pub starts : ℕ → ℕ
  pub accepted : ℕ → ℕ
  pub selectors : ℕ → ℕ
  pub initialized_key : Option GraphKey
  pub updated_epoch : Option ℕ

pub record Builder (A : Type 0) : Type 0 where
  pub states : ℕ → List A
  pub tail_key : Option GraphKey
  pub common : Common

-- buffer[from:to].fill_(x)
unfoldable pub fill {ℓ} : {X : Type ℓ} → ℕ → ℕ → X → (ℕ → X) → ℕ → X
fill from to x buffer i = if leb from i && ltb i to then x else buffer i

-- buffer[:len(xs)].copy_(xs)
unfoldable pub copy {ℓ} : {X : Type ℓ} → List X → (ℕ → X) → ℕ → X
copy xs buffer i = if ltb i (length xs) then get_or xs i (buffer i) else buffer i

abbrev pub fill_unless {ℓ} : {X : Type ℓ} → Bool → ℕ → ℕ → X → (ℕ → X) → ℕ → X
fill_unless true from to x buffer = buffer
fill_unless false from to x buffer = fill from to x buffer

-- The arguments of a fast build.
pub record Request (A : Type 0) : Type 0 where
  pub batch_size : ℕ
  pub query_len : ℕ
  pub width : ℕ
  pub epoch : Option ℕ
  pub states : List A
  pub accepted : ℕ
  pub selector : ℕ

abbrev pub key_of : {A : Type 0} → Request A → GraphKey
key_of r = (r.batch_size, r.query_len, r.width)

abbrev pub is_epoch : Option ℕ → ℕ → Bool
is_epoch none e = false
is_epoch (some e') e = e' == e

abbrev pub update_common : Bool → Option ℕ → Option ℕ → Bool → Bool
update_common true (some e) updated_epoch tail = not (is_epoch updated_epoch e) || not tail
update_common _ _ _ _ = true

unfoldable pub write_common : {A : Type 0} → Bool → Request A → Common → Common
unfolding fill
write_common tail r c = record c {
  masks = fill_unless tail 1 r.batch_size false (fill 0 1 true c.masks);
  starts = fill_unless tail 1 (r.batch_size + 1) r.query_len (fill 0 1 0 c.starts);
  accepted = fill_unless tail 1 r.batch_size 1 (fill 0 1 r.accepted c.accepted);
  selectors = fill_unless tail 1 r.batch_size 1 (fill 0 1 r.selector c.selectors);
}

-- A fast build on the shared buffers.
unfoldable pub fast_shared : {A : Type 0} → Request A → Common → Common
unfolding write_common
fast_shared r c =
    let tail = equals_key c.initialized_key (key_of r) in
    if update_common true r.epoch c.updated_epoch tail
    then record (write_common tail r c) {
      initialized_key = some (key_of r);
      updated_epoch = r.epoch;
    }
    else c

-- The speculative requests of a batch: the first location is apart, the others end the queries.
pub record Requests (A : Type 0) : Type 0 where
  pub batch_size : ℕ
  pub width : ℕ
  pub states : List (List A)
  pub masks : List Bool
  pub first_start : ℕ
  pub ends : List ℕ
  pub accepted : List ℕ
  pub selectors : List ℕ

module _ {A : Type 0} (pad : A) (shared : Bool) where
  unfoldable pub fast_update : Request A → Builder A → Builder A
  unfolding fast_shared write_common fill
  fast_update r b =
      let tail = equals_key b.tail_key (key_of r) in
      record {
        states =
            fill_unless tail 1 r.batch_size (replicate r.width pad) (fill 0 1 r.states b.states);
        tail_key = some (key_of r);
        common = if shared then fast_shared r b.common else write_common tail r b.common;
      }

  -- A build that is not fast, for a full graph: num_spec_decodes is len(states), and
  -- num_spec_decode_tokens the last of the locations, which the build tests.
  unfoldable pub spec_update : Requests A → Builder A → Builder A
  unfolding fill copy
  spec_update r b =
      let n = length r.states in
      let locations = r.first_start ∷ r.ends in
      let last = last_or r.first_start r.ends in
      record {
        states = fill n r.batch_size (replicate r.width pad) (copy r.states b.states);
        tail_key = none;
        common = record {
          masks = fill n r.batch_size false (copy r.masks b.common.masks);
          starts = fill (n + 1) (r.batch_size + 1) last (copy locations b.common.starts);
          accepted = fill n r.batch_size 1 (copy r.accepted b.common.accepted);
          selectors = fill n r.batch_size 1 (copy r.selectors b.common.selectors);
          initialized_key =
              if shared then some (r.batch_size, last, r.width) else b.common.initialized_key;
          updated_epoch = b.common.updated_epoch;
        };
      }

  -- A build without speculative requests, with its placeholder rows; it writes no shared buffer.
  unfoldable pub placeholder_update : ℕ → ℕ → Builder A → Builder A
  unfolding fill
  placeholder_update rows width b = record {
    states = fill 0 rows (replicate width pad) b.states;
    tail_key = none;
    common = if shared then b.common else record b.common {
      masks = fill 0 rows false b.common.masks;
      starts = fill 0 (rows + 1) 0 b.common.starts;
      accepted = fill 0 rows 1 b.common.accepted;
    };
  }
