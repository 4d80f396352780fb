-- ===== src/AllReduce/Norm.antt =====
-- `sm70_tp2_all_reduce_gemma_rms_norm` of fork_patches/cuda_communicator.py: the all-reduce fused
-- with the normalisation behind it. The fused kernels, the gate of the custom one and the unfused
-- normalisation of a reduced message are the fields of `NormKernels`.
pub mod Laws
use v100_skinny_unify.Prelude.{
  ℕ, ◌*◌, ◌%◌, Bool, true, false, not, Option, none, some, List, [], ◌∷◌, leb, ◌==◌, ◌&&◌, ◌||◌,
  if◌then◌else◌,
}
use v100_skinny_unify.Skinny.Route.{DType, float16, bfloat16, float32, is_float16}
use v100_skinny_unify.AllReduce.{
  Message, Group, Backends, ReducePath, product, same_shape, live, all_reduce,
}

pub record NormKernels (T R : Type 0) : Type 0 where
  pub all_reduce_gemma_norm : Message T → Message T → Message T → R
  pub can_custom : Message T → Message T → Message T → Bool
  pub custom_gemma_norm : Message T → Message T → Message T → R
  pub rms_norm : T → Message T → Message T → R

-- input_.dim() == 2, 1 to 25 rows of 5120 columns
unfoldable pub decode_rows : List ℕ → Bool
decode_rows (rows ∷ columns ∷ []) = leb 1 rows && leb rows 25 && columns == 5120
decode_rows _ = false

-- dtype in (torch.float16, torch.float32)
abbrev pub half_or_single : DType → Bool
half_or_single float16 = true
half_or_single float32 = true
half_or_single bfloat16 = false

unfoldable pub gemma_fits : {T : Type 0} → Option ℕ → (x residual weight : Message T) → Bool
gemma_fits none x residual weight = false
gemma_fits (some max_bytes) x residual weight =
    is_float16 x.dtype
    && decode_rows x.shape
    && x.contiguous
    && leb (product x.shape * 2) max_bytes
    && x.data_ptr % 16 == 0
    && same_shape residual.shape x.shape
    && residual.contiguous
    && half_or_single residual.dtype
    && weight.contiguous
    && half_or_single weight.dtype

-- Which of the three computes the result.
pub data Fusion : Type 0 where
  skinny_fused custom_fused : Fusion
  unfused : ReducePath → Fusion

module _ {T R : Type 0} (b : Backends T) (g : Group) (kernels : NormKernels T R) where
  abbrev pub normalised :
      (residual weight : Message T) → Option (ReducePath × T) → Option (Fusion × R)
  normalised residual weight none = none
  normalised residual weight (some (p, reduced)) =
      some (unfused p, kernels.rms_norm reduced residual weight)

  unfoldable pub all_reduce_gemma_rms_norm : (x residual weight : Message T) → Option (Fusion × R)
  all_reduce_gemma_rms_norm x residual weight =
      if gemma_fits g.skinny_ar x residual weight
      then some (skinny_fused, kernels.all_reduce_gemma_norm x residual weight)
      else if not g.use_custom_allreduce
          || not (live g.ca)
          || not (kernels.can_custom x residual weight)
      then normalised residual weight (all_reduce b g x)
      else some (custom_fused, kernels.custom_gemma_norm x residual weight)
