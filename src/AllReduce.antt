-- ===== src/AllReduce.antt =====
-- `CudaCommunicator` of fork_patches/cuda_communicator.py: how a group's communicators are set up
-- and which of them reduces a message. The communicators themselves, of the vLLM package and of
-- kernels/skinny_ar.cu, are the fields of `Backends`. An `AssertionError` is `none`.
pub mod Sums
pub mod Norm
pub mod Selection
pub mod Init
mod Examples
use v100_skinny_unify.Prelude.{
  ℕ, ◌+◌, ◌*◌, ◌%◌, Bool, true, false, not, Option, none, some, List, [], ◌∷◌, ◌++◌, ltb, leb, ◌==◌,
  ◌&&◌, ◌||◌, if◌then◌else◌,
}
use v100_skinny_unify.Skinny.Route.{DType, float16, bfloat16, float32, is_float16, is_some}

pub record Message (T : Type 0) : Type 0 where
  pub dtype : DType
  pub shape : List ℕ
  pub contiguous : Bool
  pub data_ptr : ℕ
  pub value : T

-- input_.numel()
unfoldable pub product : List ℕ → ℕ
product [] = 1
product (d ∷ ds) = d * product ds

unfoldable pub same_shape : List ℕ → List ℕ → Bool
same_shape [] [] = true
same_shape (x ∷ xs) (y ∷ ys) = x == y && same_shape xs ys
same_shape _ _ = false

abbrev pub same_dtype : DType → DType → Bool
same_dtype float16 float16 = true
same_dtype bfloat16 bfloat16 = true
same_dtype float32 float32 = true
same_dtype _ _ = false

-- A communicator is `none` or its attribute `disabled`; `_skinny_ar` is `none` or `_skinny_ar_max`.
pub record Group : Type 0 where
  pub world_size : ℕ
  pub use_custom_allreduce : Bool
  pub skinny_ar : Option ℕ
  pub pynccl : Option Bool
  pub qr : Option Bool
  pub fi_ar : Option Bool
  pub ca : Option Bool
  pub symm_mem : Option Bool

-- is not None and not disabled
abbrev pub live : Option Bool → Bool
live none = false
live (some disabled) = not disabled

-- What `__init__` reads, and what the constructors of the communicators leave in `disabled`.
-- `skinny_src` tells whether a source of the extension is configured and exists, `skinny_loads`
-- whether it compiles and its `init` succeeds.
pub record Setup : Type 0 where
  pub is_tp : Bool
  pub world_size : ℕ
  pub enable_custom_all_reduce : Bool
  pub top1_custom_ar : Bool
  pub tile_ar : Bool
  pub tile_overlap : Bool
  pub use_symm_mem : Bool
  pub use_flashinfer : Bool
  pub is_cuda : Bool
  pub is_rocm : Bool
  pub skinny_switch : Bool
  pub skinny_src : Bool
  pub skinny_loads : Bool
  pub skinny_max_bytes : ℕ
  pub pynccl_disabled : Bool
  pub qr_disabled : Bool
  pub fi_disabled : Bool
  pub ca_disabled : Bool
  pub symm_disabled : Bool

-- VLLM_SKINNY_AR_MAX_BYTES, not set
abbrev pub default_max_bytes : ℕ
default_max_bytes = 256 * 1024

-- The `try` around `_skinny_ar_init`: an exception leaves `_skinny_ar` at None.
unfoldable pub skinny_ar_of : Setup → Option ℕ
skinny_ar_of s =
    if s.world_size == 2 && s.is_tp && s.skinny_switch
    then (if s.skinny_src && s.skinny_loads then some s.skinny_max_bytes else none)
    else none

abbrev pub when : Bool → Bool → Option Bool
when true disabled = some disabled
when false disabled = none

unfoldable pub new : Setup → Group
new s =
    let many = ltb 1 s.world_size in
    let custom = s.is_tp && s.enable_custom_all_reduce in
    let provisioned =
      custom || s.is_tp && s.top1_custom_ar || s.is_tp && s.tile_ar || s.is_tp && s.tile_overlap in
    record {
      world_size = s.world_size;
      use_custom_allreduce = custom;
      skinny_ar = skinny_ar_of s;
      pynccl = when many s.pynccl_disabled;
      qr = when (provisioned && many && s.is_rocm) s.qr_disabled;
      fi_ar = when (s.is_tp && s.use_flashinfer && many) s.fi_disabled;
      ca = when (provisioned && many) s.ca_disabled;
      symm_mem = when (s.is_tp && s.use_symm_mem && s.is_cuda) s.symm_disabled;
    }

-- The backend names that `_trace_all_reduce_path` gets.
pub data ReducePath : Type 0 where
  skinny_ar nccl_symmetric quick_reduce flashinfer custom torch_symm_mem : ReducePath
  torch_distributed torch_distributed_fallback pynccl custom_sum2 : ReducePath

pub record Backends (T : Type 0) : Type 0 where
  pub should_nccl_symm_mem_allreduce : ℕ → Message T → Bool
  pub should_quick_allreduce : Message T → Bool
  pub should_use_fi_ar : Message T → Bool
  pub should_custom_ar : Message T → Bool
  pub should_use_symm_mem : Message T → Bool
  pub skinny_all_reduce : Message T → T
  pub all_reduce_symmetric_with_copy : Message T → Option T
  pub quick_all_reduce : Message T → Option T
  pub fi_all_reduce : Message T → Option T
  pub custom_all_reduce : Message T → Option T
  pub custom_all_reduce_sum2 : Message T → Message T → Option T
  pub symm_mem_all_reduce : Message T → Option T
  pub pynccl_all_reduce : Message T → Option T
  pub torch_all_reduce : Message T → T
  -- input_a + input_b
  pub add : Message T → Message T → Message T

-- assert out is not None
abbrev pub asserted : {T : Type 0} → ReducePath → Option T → Option (ReducePath × T)
asserted p none = none
asserted p (some y) = some (p, y)

-- The test at the head of `all_reduce`; the first argument is `_skinny_ar`.
unfoldable pub skinny_fits : {T : Type 0} → Option ℕ → Message T → Bool
skinny_fits none x = false
skinny_fits (some max_bytes) x =
    let nbytes = product x.shape * 2 in
    is_float16 x.dtype
    && x.contiguous
    && ltb 0 nbytes
    && leb nbytes max_bytes
    && nbytes % 16 == 0
    && x.data_ptr % 16 == 0

module _ {T : Type 0} (b : Backends T) (g : Group) where
  abbrev pub or_torch : Message T → Option T → Option (ReducePath × T)
  or_torch x (some y) = some (pynccl, y)
  or_torch x none = some (torch_distributed_fallback, b.torch_all_reduce x)

  unfoldable pub by_pynccl : Message T → Option (ReducePath × T)
  by_pynccl x =
      if not (live g.pynccl)
      then some (torch_distributed, b.torch_all_reduce x)
      else or_torch x (b.pynccl_all_reduce x)

  unfoldable pub after_symmetric : Message T → Option (ReducePath × T)
  after_symmetric x =
      if live g.qr && b.should_quick_allreduce x
      then asserted quick_reduce (b.quick_all_reduce x)
      else if live g.fi_ar && b.should_use_fi_ar x
      then asserted flashinfer (b.fi_all_reduce x)
      else if g.use_custom_allreduce && live g.ca && b.should_custom_ar x
      then asserted custom (b.custom_all_reduce x)
      else if is_some g.symm_mem && b.should_use_symm_mem x
      then asserted torch_symm_mem (b.symm_mem_all_reduce x)
      else by_pynccl x

  unfoldable pub or_after_symmetric : Message T → Option T → Option (ReducePath × T)
  or_after_symmetric x (some y) = some (nccl_symmetric, y)
  or_after_symmetric x none = after_symmetric x

  unfoldable pub all_reduce_stock : Message T → Option (ReducePath × T)
  all_reduce_stock x =
      if is_some g.pynccl && b.should_nccl_symm_mem_allreduce g.world_size x
      then or_after_symmetric x (b.all_reduce_symmetric_with_copy x)
      else after_symmetric x

  unfoldable pub all_reduce : Message T → Option (ReducePath × T)
  all_reduce x =
      if skinny_fits g.skinny_ar x
      then some (skinny_ar, b.skinny_all_reduce x)
      else all_reduce_stock x

  abbrev pub or_all_reduce : Message T → Option T → Option (ReducePath × T)
  or_all_reduce x (some y) = some (custom_sum2, y)
  or_all_reduce x none = all_reduce x

  unfoldable pub all_reduce_sum2 : Message T → Message T → Option (ReducePath × T)
  all_reduce_sum2 x y =
      if g.use_custom_allreduce
        && live g.ca
        && b.should_custom_ar x
        && same_shape x.shape y.shape
        && same_dtype x.dtype y.dtype
      then or_all_reduce (b.add x y) (b.custom_all_reduce_sum2 x y)
      else all_reduce (b.add x y)
