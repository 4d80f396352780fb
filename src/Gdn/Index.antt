-- ===== src/Gdn/Index.antt =====
-- The persistent token indices of fork_patches/gdn_attn.py: a buffer whose first elements are those of
-- torch.arange, of which `_spec_token_indx_initialized_size` (`token_index_initialized_size` of a
-- shared buffer) says how many have been written. `build` and the fast build take the indices of a
-- batch from it, `__init__` and a build without speculative requests write placeholder rows, and the
-- buffers of a full graph are copied to.
pub mod Laws
use v100_skinny_unify.Prelude.{
  ℕ, zero, suc, ◌+◌, max, min, Bool, true, false, Option, none, some, List, [], ◌∷◌, leb, ltb, ◌&&◌,
  if◌then◌else◌,
}
use v100_skinny_unify.Prelude.Lists.{length}
use v100_skinny_unify.Gdn.Contract.{arange}
use v100_skinny_unify.Gdn.Fast.{copy}

pub record Index : Type 0 where
  pub numel : ℕ
  pub at : ℕ → ℕ
  pub initialized : ℕ

-- buffer[from:to].copy_(torch.arange(from, to))
unfoldable pub write_arange : ℕ → ℕ → (ℕ → ℕ) → ℕ → ℕ
write_arange from to buffer i = if leb from i && ltb i to then i else buffer i

-- buffer[i : i + n]
unfoldable pub view : (ℕ → ℕ) → ℕ → ℕ → List ℕ
view buffer i zero = []
view buffer i (suc n) = buffer i ∷ view buffer (i + 1) n

-- What has not been written yet is written.
unfoldable pub extend : ℕ → Index → Index
unfolding write_arange
extend n x =
    if ltb x.initialized n
    then record x { at = write_arange x.initialized n x.at; initialized = n }
    else x

-- The indices of a batch in `build`.
unfoldable pub token_index : ℕ → Index → Index × List ℕ
unfolding extend view arange
token_index n x =
    if leb n x.numel then (let y = extend n x in (y, view y.at 0 n)) else (x, arange 0 n)

-- Those of a fast build, which gives up if there are too many.
unfoldable pub fast_token_index : ℕ → ℕ → Index → Option (Index × List ℕ)
unfolding extend view
fast_token_index width query_len x =
    let n = min width query_len in
    if ltb x.numel n then none else (let y = extend n x in some (y, view y.at 0 n))

-- __init__
unfoldable pub init_rows : Bool → ℕ → Index → Index
unfolding write_arange
init_rows shared rows x = record x {
  at = write_arange 0 rows x.at;
  initialized = if shared then max x.initialized rows else rows;
}

-- A build without speculative requests.
unfoldable pub placeholder_rows : ℕ → Index → Index
unfolding write_arange
placeholder_rows rows x = record x { at = write_arange 0 rows x.at }

-- The copy to the buffer of a full graph, if the indices are not in it already.
unfoldable pub graph_rows : Bool → Bool → List ℕ → Index → Index
unfolding copy
graph_rows shared in_place xs x = record x {
  at = if in_place then x.at else copy xs x.at;
  initialized = if shared then max x.initialized (length xs) else x.initialized;
}
