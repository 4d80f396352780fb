-- ===== src/AllReduce/Sums.antt =====
-- Whatever backend is chosen, the result is the sum over the ranks.
use v100_skinny_unify.Prelude.{ℕ, ◌*◌, ◌%◌, ◌≤◌, ◌≡◌, ◌⊎◌, refl, true, Option, none, some, arith}
use v100_skinny_unify.Skinny.Route.{float16}
use v100_skinny_unify.Skinny.Route.Launch.{half_of}
use v100_skinny_unify.AllReduce.{
  Message, Group, Backends, ReducePath, product, skinny_fits, by_pynccl, after_symmetric,
  or_after_symmetric, all_reduce_stock, all_reduce, all_reduce_sum2,
}

-- What the dispatch relies on of the backends of a group: a backend that accepts a message reduces
-- it, and one that may decline gives no other result. `total` is the sum of the message over the
-- ranks. The host-memory kernel reduces what its own checks accept, with slots of the size that
-- `_skinny_ar_init` gives them.
pub record Reduces {T : Type 0} (total : Message T → T) (b : Backends T) (g : Group) : Type 0 where
  pub quick :
      (x : Message T) → b.should_quick_allreduce x ≡ true → b.quick_all_reduce x ≡ some (total x)
  pub flashinfer :
      (x : Message T) → b.should_use_fi_ar x ≡ true → b.fi_all_reduce x ≡ some (total x)
  pub custom :
      (x : Message T) → b.should_custom_ar x ≡ true → b.custom_all_reduce x ≡ some (total x)
  pub symm_mem :
      (x : Message T) → b.should_use_symm_mem x ≡ true → b.symm_mem_all_reduce x ≡ some (total x)
  pub symmetric :
      (x : Message T)
      → (b.all_reduce_symmetric_with_copy x ≡ none)
        ⊎ (b.all_reduce_symmetric_with_copy x ≡ some (total x))
  pub pynccl :
      (x : Message T) → (b.pynccl_all_reduce x ≡ none) ⊎ (b.pynccl_all_reduce x ≡ some (total x))
  pub sum2 :
      (x y : Message T)
      → (b.custom_all_reduce_sum2 x y ≡ none)
        ⊎ (b.custom_all_reduce_sum2 x y ≡ some (total (b.add x y)))
  pub torch : (x : Message T) → b.torch_all_reduce x ≡ total x
  pub skinny :
      (x : Message T) (slot_bytes : ℕ)
      → g.skinny_ar ≡ some slot_bytes
      → x.dtype ≡ float16
      → x.contiguous ≡ true
      → product x.shape * 2 % 16 ≡ 0
      → product x.shape * 2 ≤ slot_bytes
      → x.data_ptr % 16 ≡ 0
      → b.skinny_all_reduce x ≡ total x

abbrev pub IsTotal : {T : Type 0} → Option (ReducePath × T) → T → Type 0
IsTotal none y = ⊥
IsTotal (some (p, z)) y = z ≡ y

module _ {T : Type 0} (total : Message T → T) (b : Backends T) (g : Group)
    (ok : Reduces total b g) where
  by_pynccl-IsTotal : (x : Message T) → IsTotal (by_pynccl b g x) (total x)
  unfolding by_pynccl
  by_pynccl-IsTotal x = ground (arith, ok.pynccl x, ok.torch x)

  after_symmetric-IsTotal : (x : Message T) → IsTotal (after_symmetric b g x) (total x)
  unfolding after_symmetric
  after_symmetric-IsTotal x =
      ground (arith, ok.quick x, ok.flashinfer x, ok.custom x, ok.symm_mem x, by_pynccl-IsTotal x)

  stock-IsTotal : (x : Message T) → IsTotal (all_reduce_stock b g x) (total x)
  unfolding all_reduce_stock or_after_symmetric
  stock-IsTotal x = ground (arith, ok.symmetric x, after_symmetric-IsTotal x)

  skinny-IsTotal :
      (x : Message T) (max_bytes : Option ℕ)
      → g.skinny_ar ≡ max_bytes
      → skinny_fits max_bytes x ≡ true
      → b.skinny_all_reduce x ≡ total x
  unfolding skinny_fits
  skinny-IsTotal x none at fits = cc
  skinny-IsTotal x (some max_bytes) at fits =
      ground (arith, ok.skinny x max_bytes at, half_of x.dtype)

  -- An all-reduce returns, and what it returns is the sum of the message over the ranks, whichever
  -- backends the group has and whichever of them declines, if each backend that accepts a message
  -- returns its sum, the host-memory kernel those that pass its checks: half precision, contiguous,
  -- aligned, whole packets of 16 bytes, and within its slots.
  pub all_reduce-IsTotal : (x : Message T) → IsTotal (all_reduce b g x) (total x)
  unfolding all_reduce
  all_reduce-IsTotal x = ground (arith, skinny-IsTotal x g.skinny_ar refl, stock-IsTotal x)

  -- The reduction of two messages returns the sum over the ranks of their sum, under the same
  -- condition on the backends.
  pub all_reduce_sum2-IsTotal :
      (x y : Message T) → IsTotal (all_reduce_sum2 b g x y) (total (b.add x y))
  unfolding all_reduce_sum2
  all_reduce_sum2-IsTotal x y = ground (arith, ok.sum2 x y, all_reduce-IsTotal (b.add x y))
