-- ===== src/AllReduce/Selection/Laws.antt =====
-- The dispatch against the logged backends.
use v100_skinny_unify.Prelude.{
  ◌≡◌, ◌⊎◌, inl, inr, refl, Bool, true, false, Option, none, some, List, [], ◌∷◌, arith,
}
use mathlib.Core.Path.{subst}
use v100_skinny_unify.Skinny.Route.{is_some}
use v100_skinny_unify.AllReduce.{
  Message, Group, Backends, ReducePath, live, nccl_symmetric, torch_symm_mem, torch_distributed,
  torch_distributed_fallback, by_pynccl, after_symmetric, or_after_symmetric, all_reduce_stock,
}
use v100_skinny_unify.AllReduce.Selection.{
  Backend, Settings, nccl_symm_mem, symm_mem, append_if, nccl_symm_ws_ok, enabled_ar_backends,
  backend_of,
}

-- A backend stands in a list.
abbrev pub IsListed : Backend → List Backend → Type 0
IsListed x [] = ⊥
IsListed x (y ∷ ys) = (x ≡ y) ⊎ IsListed x ys

IsListed-later :
    (test : Bool) (x y : Backend) (rest : List Backend)
    → IsListed x rest
    → IsListed x (append_if test y rest)
unfolding append_if
IsListed-later true x y rest h = inr h
IsListed-later false x y rest h = h

-- What the gates of the symmetric memories rely on, for messages of type `T`: the static
-- conditions that the log repeats.
pub record Gates {T : Type 0} (s : Settings) (g : Group) (b : Backends T) : Type 0 where
  pub memory :
      (x : Message T)
      → b.should_nccl_symm_mem_allreduce g.world_size x ≡ true
      → s.symmetric_memory_enabled ≡ true
  pub variant :
      (x : Message T)
      → b.should_nccl_symm_mem_allreduce g.world_size x ≡ true
      → s.batch_invariant ≡ false
  pub world :
      (x : Message T)
      → b.should_nccl_symm_mem_allreduce g.world_size x ≡ true
      → nccl_symm_ws_ok s g.world_size ≡ true
  pub symm_live : (x : Message T) → b.should_use_symm_mem x ≡ true → live g.symm_mem ≡ true

module _ {T : Type 0} (s : Settings) (b : Backends T) (g : Group) (gates : Gates s g b) where
  -- The conditions under which each path runs.
  abbrev pub Runs : ReducePath → Type 0
  Runs nccl_symmetric =
      (is_some g.pynccl ≡ true)
      × (s.symmetric_memory_enabled ≡ true)
      × (s.batch_invariant ≡ false)
      × (nccl_symm_ws_ok s g.world_size ≡ true)
  Runs ReducePath.quick_reduce = live g.qr ≡ true
  Runs ReducePath.flashinfer = live g.fi_ar ≡ true
  Runs ReducePath.custom = (g.use_custom_allreduce ≡ true) × (live g.ca ≡ true)
  Runs torch_symm_mem = live g.symm_mem ≡ true
  Runs ReducePath.pynccl = live g.pynccl ≡ true
  Runs torch_distributed = live g.pynccl ≡ false
  Runs torch_distributed_fallback = live g.pynccl ≡ true
  Runs _ = ⊥

  abbrev pub RunsIn : Option (ReducePath × T) → Type 0
  RunsIn none = Unit {0}
  RunsIn (some (p, y)) = Runs p

  after_symmetric-RunsIn : (x : Message T) → RunsIn (after_symmetric b g x)
  unfolding after_symmetric by_pynccl
  after_symmetric-RunsIn x = ground (arith, gates.symm_live x)

  stock-RunsIn : (x : Message T) → RunsIn (all_reduce_stock b g x)
  unfolding all_reduce_stock or_after_symmetric
  stock-RunsIn x =
      ground (arith, gates.memory x, gates.variant x, gates.world x, after_symmetric-RunsIn x)

  IsListed-where :
      (x : Backend) (test : Bool) (rest : List Backend)
      → test ≡ true
      → IsListed x (append_if test x rest)
  unfolding append_if
  IsListed-where x true rest h = inl refl
  IsListed-where x false rest h = absurd (ground arith)

  -- The name is logged, or it is that of the NCCL symmetric memory and PyNccl is there and disabled.
  abbrev pub IsLogged : Backend → Type 0
  IsLogged name =
      IsListed name (enabled_ar_backends s g) ⊎ ((name ≡ nccl_symm_mem) × (g.pynccl ≡ some true))

  abbrev pub ListedIn : Option Backend → Type 0
  ListedIn none = Unit {0}
  ListedIn (some name) = IsLogged name

  live_or_disabled : (o : Option Bool) → is_some o ≡ true → (live o ≡ true) ⊎ (o ≡ some true)
  live_or_disabled none h = cc
  live_or_disabled (some true) h = inr refl
  live_or_disabled (some false) h = inl refl

  symmetric-IsLogged : Runs nccl_symmetric → IsLogged nccl_symm_mem
  unfolding enabled_ar_backends
  symmetric-IsLogged (there, memory, variant, world) = elim (live_or_disabled g.pynccl there) [
    | inl alive ↦ inl (IsListed-where nccl_symm_mem _ _ ground arith)
    | inr disabled ↦ inr (refl, disabled)
  ]

  -- The entries of the log below the first, the second, and so on.
  ReducePath-ListedIn : (p : ReducePath) → Runs p → ListedIn (backend_of p)
  unfolding enabled_ar_backends
  ReducePath-ListedIn nccl_symmetric r = symmetric-IsLogged r
  ReducePath-ListedIn ReducePath.quick_reduce r =
      inl (IsListed-later _ _ _ _ (IsListed-where Backend.quick_reduce _ _ r))
  ReducePath-ListedIn ReducePath.flashinfer r =
      inl
        (IsListed-later _ _ _ _ (IsListed-later _ _ _ _ (IsListed-where Backend.flashinfer _ _ r)))
  ReducePath-ListedIn ReducePath.custom r = inl (
      IsListed-later _ _ _ _ (
        IsListed-later _ _ _ _
          (IsListed-later _ _ _ _ (IsListed-where Backend.custom _ _ ground arith))))
  ReducePath-ListedIn torch_symm_mem r = inl (
      IsListed-later _ _ _ _ (
        IsListed-later _ _ _ _
          (IsListed-later _ _ _ _ (IsListed-later _ _ _ _ (IsListed-where symm_mem _ _ r)))))
  ReducePath-ListedIn ReducePath.pynccl r = inl (
      IsListed-later _ _ _ _ (
        IsListed-later _ _ _ _ (
          IsListed-later _ _ _ _ (
            IsListed-later _ _ _ _
              (IsListed-later _ _ _ _ (IsListed-where Backend.pynccl _ _ r))))))
  ReducePath-ListedIn torch_distributed r = tt
  ReducePath-ListedIn torch_distributed_fallback r = tt
  ReducePath-ListedIn ReducePath.skinny_ar r = tt
  ReducePath-ListedIn ReducePath.custom_sum2 r = tt

  -- A backend that reduces a message, the host-memory one apart, is one of those that were logged as
  -- active for the group, if the gates of the symmetric memories imply what the log tests of the
  -- settings and of the communicator; except that a PyNccl that is there and disabled may reduce
  -- through the NCCL symmetric memory, which is then not logged.
  pub stock-IsListed :
      (x : Message T) {p : ReducePath} {y : T} {name : Backend}
      → all_reduce_stock b g x ≡ some (p, y)
      → backend_of p ≡ some name
      → IsLogged name
  stock-IsListed x {p} h e =
      subst ListedIn e (ReducePath-ListedIn p (subst RunsIn h (stock-RunsIn x)))
