-- ===== src/AllReduce/Examples.antt =====
-- The theorems on the all-reduce at concrete inputs: two ranks that hold the same message, so that
-- the sum is the double.
use v100_skinny_unify.Prelude.{
  ℕ, ◌+◌, ◌*◌, ◌≡◌, ◌==◌, inl, inr, refl, ap, List, true, false, none, some, [], ◌∷◌, arith,
}
use v100_skinny_unify.Skinny.Route.{float16, is_float16}
use v100_skinny_unify.AllReduce.{
  Message, Backends, Setup, default_max_bytes, new, all_reduce, all_reduce_stock, product,
  or_after_symmetric, nccl_symmetric,
}
use v100_skinny_unify.AllReduce.Sums.{Reduces, IsTotal, all_reduce-IsTotal}
use v100_skinny_unify.AllReduce.Norm.{NormKernels, all_reduce_gemma_rms_norm}
use v100_skinny_unify.AllReduce.Norm.Laws.{
  Normalises, SuitsWeight, IsNormalised, all_reduce_gemma_rms_norm-IsNormalised,
}
use v100_skinny_unify.AllReduce.Selection.{Settings, nccl_symm_ws_ok}
use v100_skinny_unify.AllReduce.Selection as Selection
use v100_skinny_unify.AllReduce.Selection.Laws.{Gates, IsLogged, stock-IsListed}

abbrev double : Message ℕ → ℕ
double x = 2 * x.value

-- NCCL and torch.distributed; no other backend takes a message.
abbrev plain : Backends ℕ
plain = record {
  should_nccl_symm_mem_allreduce = λ w x. false;
  should_quick_allreduce = λ x. false;
  should_use_fi_ar = λ x. false;
  should_custom_ar = λ x. true;
  should_use_symm_mem = λ x. false;
  skinny_all_reduce = double;
  all_reduce_symmetric_with_copy = λ x. none;
  quick_all_reduce = λ x. none;
  fi_all_reduce = λ x. none;
  custom_all_reduce = λ x. some (double x);
  custom_all_reduce_sum2 = λ x y. none;
  symm_mem_all_reduce = λ x. none;
  pynccl_all_reduce = λ x. some (double x);
  torch_all_reduce = double;
  add = λ x y. record x { value = x.value + y.value };
}

-- Two tensor-parallel ranks, custom all-reduce off.
abbrev two_ranks : Setup
two_ranks = record {
  is_tp = true;
  world_size = 2;
  enable_custom_all_reduce = false;
  top1_custom_ar = true;
  tile_ar = false;
  tile_overlap = false;
  use_symm_mem = false;
  use_flashinfer = false;
  is_cuda = true;
  is_rocm = false;
  skinny_switch = true;
  skinny_src = true;
  skinny_loads = true;
  skinny_max_bytes = default_max_bytes;
  pynccl_disabled = false;
  qr_disabled = false;
  fi_disabled = false;
  ca_disabled = false;
  symm_disabled = false;
}

plain-Reduces : Reduces double plain (new two_ranks)
plain-Reduces = record {
  quick = λ x h. absurd (ground arith);
  flashinfer = λ x h. absurd (ground arith);
  custom = λ x h. refl;
  symm_mem = λ x h. absurd (ground arith);
  symmetric = λ x. inl refl;
  pynccl = λ x. inr refl;
  sum2 = λ x y. inl refl;
  torch = λ x. refl;
  skinny = λ x n at half packed whole fits aligned. refl;
}

-- Four rows of a decode step.
abbrev rows : Message ℕ
rows = record {
  dtype = float16;
  shape = 4 ∷ 5120 ∷ [];
  contiguous = true;
  data_ptr = 4096;
  value = 21;
}

all_reduce-IsTotal_example : IsTotal (all_reduce plain (new two_ranks) rows) 42
all_reduce-IsTotal_example = all_reduce-IsTotal double plain (new two_ranks) plain-Reduces rows

abbrev norms : NormKernels ℕ ℕ
norms = record {
  all_reduce_gemma_norm = λ x r w. double x + r.value;
  can_custom = λ x r w. false;
  custom_gemma_norm = λ x r w. double x + r.value;
  rms_norm = λ y r w. y + r.value;
}

-- The normalisation on numbers.
abbrev Normal : ℕ → Message ℕ → Message ℕ → ℕ → Type 0
Normal y residual weight z = z ≡ y + residual.value

norms-Normalises : Normalises Normal double (new two_ranks) norms
norms-Normalises = record {
  of_reduced = λ y residual weight. refl;
  of_slots = λ x r w n i j a b c d e f k l m o p q s t u v. refl;
  of_custom = λ x residual weight alive can. refl;
}

-- A weight for each column.
abbrev weight : Message ℕ
weight = record rows { shape = 5120 ∷ [] }

weight-Suits :
    SuitsWeight Normal double plain (new two_ranks) norms plain-Reduces norms-Normalises rows weight
unfolding product
weight-Suits m n shape = ground (arith, ap second_of shape)
  where
    second_of : List ℕ → ℕ
    second_of [] = 0
    second_of (x ∷ []) = 0
    second_of (x ∷ y ∷ l) = y

gemma_rms_norm_example :
    IsNormalised Normal double plain
      (new two_ranks)
      norms
      plain-Reduces
      norms-Normalises
      rows
      rows
      weight
      (all_reduce_gemma_rms_norm plain (new two_ranks) norms rows rows weight)
gemma_rms_norm_example =
    all_reduce_gemma_rms_norm-IsNormalised Normal double plain (new two_ranks) norms plain-Reduces
      norms-Normalises rows rows weight weight-Suits

abbrev settings : Settings
settings = record {
  symmetric_memory_enabled = true;
  batch_invariant = false;
  min_world_size = 2;
  preferred = λ w. w == 2;
  always_use_above = 8;
}

-- A backend that reduces half-precision messages in NCCL symmetric memory.
abbrev symmetric : Backends ℕ
symmetric = record plain {
  should_nccl_symm_mem_allreduce = λ w x. is_float16 x.dtype;
  all_reduce_symmetric_with_copy = λ x. some (double x);
}

symmetric-Gates : Gates settings (new two_ranks) symmetric
unfolding nccl_symm_ws_ok new
symmetric-Gates = record {
  memory = λ x h. refl;
  variant = λ x h. refl;
  world = λ x h. refl;
  symm_live = λ x h. absurd (ground arith);
}

stock-IsListed_example :
    IsLogged settings symmetric (new two_ranks) symmetric-Gates Selection.nccl_symm_mem
unfolding all_reduce_stock or_after_symmetric new
stock-IsListed_example =
    stock-IsListed settings symmetric (new two_ranks) symmetric-Gates rows {p = nccl_symmetric}
      {y = 42} refl refl
