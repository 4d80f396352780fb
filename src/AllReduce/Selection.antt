-- ===== src/AllReduce/Selection.antt =====
-- `_log_all_reduce_backend_selection` of fork_patches/cuda_communicator.py: the backends that are
-- logged as active for a group. The settings of the NCCL symmetric memory are an argument.
pub mod Laws
use v100_skinny_unify.Prelude.{
  ℕ, Bool, true, false, not, Option, none, some, List, [], ◌∷◌, ◌++◌, ltb, leb, ◌==◌, ◌&&◌, ◌||◌,
  if◌then◌else◌,
}
use v100_skinny_unify.Skinny.Route.{is_some}
use v100_skinny_unify.AllReduce.{Group, ReducePath, live, nccl_symmetric, torch_symm_mem}

pub data Backend : Type 0 where
  nccl_symm_mem quick_reduce flashinfer custom symm_mem pynccl : Backend

pub record Settings : Type 0 where
  pub symmetric_memory_enabled : Bool
  pub batch_invariant : Bool
  pub min_world_size : ℕ
  pub preferred : ℕ → Bool
  pub always_use_above : ℕ

unfoldable pub nccl_symm_ws_ok : Settings → ℕ → Bool
nccl_symm_ws_ok s w = leb s.min_world_size w && (s.preferred w || ltb s.always_use_above w)

-- if …: enabled_ar_backends.append(…)
unfoldable pub append_if : Bool → Backend → List Backend → List Backend
append_if true x rest = x ∷ rest
append_if false x rest = rest

unfoldable pub enabled_ar_backends : Settings → Group → List Backend
enabled_ar_backends s g =
    append_if
      (live g.pynccl
        && s.symmetric_memory_enabled
        && not s.batch_invariant
        && nccl_symm_ws_ok s g.world_size)
      nccl_symm_mem
      (append_if (live g.qr) Backend.quick_reduce (
        append_if (live g.fi_ar) Backend.flashinfer (
          append_if (g.use_custom_allreduce && live g.ca) Backend.custom
            (append_if (live g.symm_mem) symm_mem (append_if (live g.pynccl) Backend.pynccl [])))))

-- The name in the log of a path of the dispatch; the fallbacks on torch.distributed have none.
abbrev pub backend_of : ReducePath → Option Backend
backend_of nccl_symmetric = some nccl_symm_mem
backend_of ReducePath.quick_reduce = some Backend.quick_reduce
backend_of ReducePath.flashinfer = some Backend.flashinfer
backend_of ReducePath.custom = some Backend.custom
backend_of torch_symm_mem = some symm_mem
backend_of ReducePath.pynccl = some Backend.pynccl
backend_of _ = none
