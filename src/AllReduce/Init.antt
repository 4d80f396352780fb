-- ===== src/AllReduce/Init.antt =====
-- What the setup of a group rules out.
use v100_skinny_unify.Prelude.{◌≡◌, ◌≢◌, ◌⊎◌, false, Option, none, some, arith}
use v100_skinny_unify.AllReduce.{
  Message, Group, Backends, ReducePath, Setup, custom, custom_sum2, skinny_fits, skinny_ar_of, new,
  by_pynccl, after_symmetric, or_after_symmetric, all_reduce_stock, all_reduce, all_reduce_sum2,
}

abbrev pub AvoidsCustom : {T : Type 0} → Option (ReducePath × T) → Type 0
AvoidsCustom none = Unit {0}
AvoidsCustom (some (p, y)) = (p ≢ custom) × (p ≢ custom_sum2)

module _ {T : Type 0} (b : Backends T) (g : Group) (off : g.use_custom_allreduce ≡ false) where
  after_symmetric-AvoidsCustom : (x : Message T) → AvoidsCustom (after_symmetric b g x)
  unfolding after_symmetric by_pynccl
  after_symmetric-AvoidsCustom x = ground arith

  all_reduce-AvoidsCustom : (x : Message T) → AvoidsCustom (all_reduce b g x)
  unfolding all_reduce all_reduce_stock or_after_symmetric
  all_reduce-AvoidsCustom x = ground (arith, after_symmetric-AvoidsCustom x)

  all_reduce_sum2-AvoidsCustom : (x y : Message T) → AvoidsCustom (all_reduce_sum2 b g x y)
  unfolding all_reduce_sum2
  all_reduce_sum2-AvoidsCustom x y = ground (arith, all_reduce-AvoidsCustom (b.add x y))

module _ {T : Type 0} (b : Backends T) (s : Setup) where
  new_off : s.enable_custom_all_reduce ≡ false → (new s).use_custom_allreduce ≡ false
  unfolding new
  new_off off = ground arith

  -- With custom all-reduce off, no reduction of one or of two messages goes through it, even if its
  -- communicator is there for the top-1 reducer or for the tiles.
  pub new-AvoidsCustom :
      (x y : Message T)
      → s.enable_custom_all_reduce ≡ false
      → AvoidsCustom (all_reduce b (new s) x) × AvoidsCustom (all_reduce_sum2 b (new s) x y)
  new-AvoidsCustom x y off = (
    all_reduce-AvoidsCustom b (new s) (new_off off) x,
    all_reduce_sum2-AvoidsCustom b (new s) (new_off off) x y,
  )

  -- Outside a tensor-parallel group of two ranks, or if the extension's source is missing or does
  -- not load, every message takes the stock dispatch.
  pub all_reduce_stock_lem :
      (x : Message T)
      → (s.is_tp ≡ false) ⊎ (s.world_size ≢ 2) ⊎ (s.skinny_src ≡ false) ⊎ (s.skinny_loads ≡ false)
      → all_reduce b (new s) x ≡ all_reduce_stock b (new s) x
  unfolding all_reduce new skinny_ar_of skinny_fits
  all_reduce_stock_lem x h = ground arith
