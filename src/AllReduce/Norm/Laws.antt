-- ===== src/AllReduce/Norm/Laws.antt =====
-- When the fused kernel of the host-memory all-reduce takes a message.
use v100_skinny_unify.Prelude.{
  ℕ, ◌*◌, ◌%◌, ◌≤◌, ◌≡◌, ◌⊎◌, inl, inr, refl, ap, true, false, Option, none, some, List, [], ◌∷◌,
  arith,
}
use mathlib.Core.Path.{subst}
use v100_skinny_unify.Skinny.Route.{DType, float16, bfloat16, float32}
use v100_skinny_unify.Skinny.Route.Launch.{half_of}
use v100_skinny_unify.AllReduce.{
  Message, Group, Backends, ReducePath, product, same_shape, skinny_fits, live, all_reduce,
}
use v100_skinny_unify.AllReduce.Sums.{Reduces, IsTotal, all_reduce-IsTotal}
use v100_skinny_unify.AllReduce.Norm.{
  NormKernels, decode_rows, half_or_single, gemma_fits, Fusion, skinny_fused, custom_fused, unfused,
  normalised, all_reduce_gemma_rms_norm,
}

-- The messages of the fused kernel: 10240 bytes for each row.
decode_bytes :
    (shape : List ℕ)
    → decode_rows shape ≡ true
    → (1 ≤ product shape) × (product shape * 2 % 16 ≡ 0) × (product shape * 2 ≤ 256000)
unfolding decode_rows product
decode_bytes [] h = ground arith
decode_bytes (r ∷ []) h = ground arith
decode_bytes (r ∷ c ∷ []) h = ground arith
decode_bytes (r ∷ c ∷ d ∷ ds) h = ground arith

-- A message that the fused kernel takes is one that the host-memory all-reduce would take by
-- itself: it is not empty, its bytes are a multiple of 16, and it is aligned.
pub gemma_fits-skinny_fits :
    {T : Type 0} (max_bytes : Option ℕ) (x residual weight : Message T)
    → gemma_fits max_bytes x residual weight ≡ true
    → skinny_fits max_bytes x ≡ true
unfolding gemma_fits skinny_fits
gemma_fits-skinny_fits max_bytes x residual weight h = ground (arith, decode_bytes x.shape)

-- With a limit of 256000 bytes or more, the default among them, the limit turns no message of the
-- fused kernel away.
pub gemma_fits_unlimited :
    {T : Type 0} (max_bytes more : ℕ) (x residual weight : Message T)
    → 256000 ≤ max_bytes
    → max_bytes ≤ more
    → gemma_fits (some max_bytes) x residual weight ≡ gemma_fits (some more) x residual weight
unfolding gemma_fits
gemma_fits_unlimited max_bytes more x residual weight lo hi = ground (arith, decode_bytes x.shape)

-- The shape of a decode step.
decode_rows-shape :
    (shape : List ℕ)
    → decode_rows shape ≡ true
    → (rows : ℕ) × (shape ≡ rows ∷ 5120 ∷ []) × (1 ≤ rows) × (rows ≤ 25)
unfolding decode_rows
decode_rows-shape [] h = cc
decode_rows-shape (r ∷ []) h = cc
decode_rows-shape (r ∷ c ∷ []) h =
    let wide : c ≡ 5120 = ground arith in (r, ap (λ n. r ∷ n ∷ []) wide, ground arith, ground arith)
decode_rows-shape (r ∷ c ∷ d ∷ ds) h = cc

half_or_single_is : (d : DType) → half_or_single d ≡ true → (d ≡ float16) ⊎ (d ≡ float32)
half_or_single_is float16 h = inl refl
half_or_single_is float32 h = inr refl
half_or_single_is bfloat16 h = cc

-- What the code relies on of the normalising kernels: each result is the normalisation of the sum over
-- the ranks, `Normal`, which leaves room for the rounding of a kernel. The fused kernel of the
-- host-memory all-reduce makes it of what its own checks accept, the custom one of what its gate
-- accepts where it is alive.
pub record Normalises {T R : Type 0} (Normal : T → Message T → Message T → R → Type 0)
    (total : Message T → T) (g : Group) (kernels : NormKernels T R) : Type 0 where
  pub of_reduced :
      (y : T) (residual weight : Message T)
      → Normal y residual weight (kernels.rms_norm y residual weight)
  pub of_slots :
      (x residual weight : Message T) (slot_bytes rows columns : ℕ)
      → g.skinny_ar ≡ some slot_bytes
      → x.dtype ≡ float16
      → x.contiguous ≡ true
      → x.shape ≡ rows ∷ columns ∷ []
      → residual.contiguous ≡ true
      → same_shape residual.shape x.shape ≡ true
      → (residual.dtype ≡ float16) ⊎ (residual.dtype ≡ float32)
      → weight.contiguous ≡ true
      → product weight.shape ≡ columns
      → (weight.dtype ≡ float16) ⊎ (weight.dtype ≡ float32)
      → columns % 8 ≡ 0
      → columns ≤ 8192
      → 1 ≤ rows
      → rows ≤ 64
      → product x.shape * 2 ≤ slot_bytes
      → x.data_ptr % 16 ≡ 0
      → Normal (total x) residual weight (kernels.all_reduce_gemma_norm x residual weight)
  pub of_custom :
      (x residual weight : Message T)
      → live g.ca ≡ true
      → kernels.can_custom x residual weight ≡ true
      → Normal (total x) residual weight (kernels.custom_gemma_norm x residual weight)

module _ {T R : Type 0} (Normal : T → Message T → Message T → R → Type 0) (total : Message T → T)
    (b : Backends T) (g : Group) (kernels : NormKernels T R) (ok : Reduces total b g)
    (norms : Normalises Normal total g kernels) where
  -- The weight has an element for each column of the message.
  abbrev pub SuitsWeight : (x weight : Message T) → Type 0
  SuitsWeight x weight =
      (rows columns : ℕ) → x.shape ≡ rows ∷ columns ∷ [] → product weight.shape ≡ columns

  -- The result of the normalised all-reduce, for each way it is computed.
  abbrev pub IsNormalised : (x residual weight : Message T) → Option (Fusion × R) → Type 0
  IsNormalised x residual weight none = ⊥
  IsNormalised x residual weight (some (skinny_fused, y)) =
      (skinny_fits g.skinny_ar x ≡ true) × Normal (total x) residual weight y
  IsNormalised x residual weight (some (custom_fused, y)) =
      (g.use_custom_allreduce ≡ true) × (live g.ca ≡ true) × Normal (total x) residual weight y
  IsNormalised x residual weight (some (unfused p, y)) =
      (gemma_fits g.skinny_ar x residual weight ≡ false) × Normal (total x) residual weight y

  slots-Normal :
      (max_bytes : Option ℕ) (x residual weight : Message T)
      → g.skinny_ar ≡ max_bytes
      → SuitsWeight x weight
      → gemma_fits max_bytes x residual weight ≡ true
      → Normal (total x) residual weight (kernels.all_reduce_gemma_norm x residual weight)
  unfolding gemma_fits
  slots-Normal none x residual weight at suits fits = cc
  slots-Normal (some max_bytes) x residual weight at suits fits =
      let (rows, shape, some_row, few_rows) = decode_rows-shape x.shape (ground arith) in
      norms.of_slots x residual weight max_bytes rows 5120 at (ground (arith, half_of x.dtype))
        (ground arith) shape (ground arith) (ground arith)
        (half_or_single_is residual.dtype (ground arith)) (ground arith) (suits rows 5120 shape)
        (half_or_single_is weight.dtype (ground arith)) refl (omega arith) some_row (omega arith)
        (ground arith) (ground arith)

  reduced-Normal :
      (x residual weight : Message T) (r : Option (ReducePath × T))
      → gemma_fits g.skinny_ar x residual weight ≡ false
      → IsTotal r (total x)
      → IsNormalised x residual weight (normalised b g kernels residual weight r)
  reduced-Normal x residual weight none h e = e
  reduced-Normal x residual weight (some (p, y)) h e = (
    h,
    subst (λ z. Normal z residual weight (kernels.rms_norm y residual weight)) e
        (norms.of_reduced y residual weight),
  )

  -- The normalised all-reduce returns a result in every case, and it is the normalisation of the sum
  -- over the ranks with the residual and the weight, whichever way it is computed: by the host-memory
  -- kernel only for a message that its plain all-reduce takes too, by the custom kernel only where
  -- custom all-reduce is on and alive, otherwise from the reduced message. The weight has an element
  -- for each column; the backends reduce what they accept; each kernel normalises, the fused ones what
  -- their own checks accept.
  pub all_reduce_gemma_rms_norm-IsNormalised :
      (x residual weight : Message T)
      → SuitsWeight x weight
      → IsNormalised x residual weight (all_reduce_gemma_rms_norm b g kernels x residual weight)
  unfolding all_reduce_gemma_rms_norm
  all_reduce_gemma_rms_norm-IsNormalised x residual weight suits = ground (
    arith,
    gemma_fits-skinny_fits g.skinny_ar x residual weight,
    slots-Normal g.skinny_ar x residual weight refl suits,
    norms.of_custom x residual weight,
    reduced-Normal x residual weight (all_reduce b g x),
    all_reduce-IsTotal total b g ok x,
  )
