-- ===== src/Flash/Forward/Session.antt =====
-- The dense cache over the calls of a layer. The cache is not keyed by a request: what keeps it right
-- is the order of the calls.
pub mod Moves
pub mod Reads
pub mod Stale
use v100_skinny_unify.Prelude.{
  ℕ, ◌-◌, ◌≤◌, ◌<◌, ◌≡◌, ◌⊎◌, refl, sym, ap, ◌∙◌, inl, inr, Bool, true, false, not, Option, none,
  some, List, [], ◌∷◌, min, ltb, leb, ◌==◌, ◌&&◌, ◌||◌, if◌then◌else◌, arith, Bool-cases,
}
use mathlib.Core.Path.{subst}
use v100_skinny_unify.Prelude.Options.{Option-cases}
use v100_skinny_unify.Prelude.Lists.{length, get_or}
use v100_skinny_unify.Flash.Cache.{Layout, DecodeCache, reset, get_decode_kv}
use v100_skinny_unify.Flash.Cache.Reads.{IsFor, reset-IsFor, Serves, IsRead, get_decode_kv-IsRead}
use v100_skinny_unify.Flash.Forward.Settings.{Impl, uses_fp8_kv_cache, supports_flash_v100_path}
use v100_skinny_unify.Flash.Forward.{
  Metadata, locations, on_host, Call, Reason, no_flash_decode, scalar_disabled, Route, zero_output,
  raises, shape_error, untouched, triton, with_prefix, dense_prefill, paged_prefill,
  dense_reference, scalar_paged, dense_cache, decode_of, small_query_decode_enabled, run_dense,
  after_context, decode_dense_cache, context, forward_prefill, forward_decode, forward,
}

abbrev pub is_some : Option Bool → Bool
is_some none = false
is_some (some b) = true

module _ {V : Type 0} where
  -- num_seqs == 1
  abbrev pub single : Call V → Bool
  single c =
      let m = c.metadata in
      min (length (locations m) - 1) (length (on_host m.seq_lens_cpu m.seq_lens)) == 1

  -- No dense decode, and an error of the shapes only in a prefill.
  abbrev pub NotRead : Call V → Route V → Type 0
  NotRead c (dense_cache tokens n) = ⊥
  NotRead c shape_error = 1 < c.metadata.max_query_len
  NotRead c _ = Unit {0}

module _ {V : Type 0} (recast : Layout → Layout → Option (V → V)) (junk : ℕ → V) (impl : Impl) where
  -- A prefill that forgets the cache: all but the captured small queries.
  abbrev pub resets : Call V → Bool
  resets c =
      supports_flash_v100_path impl
      && ltb 1 c.metadata.max_query_len
      && (impl.use_triton_prefill
          || not (c.is_capturing && small_query_decode_enabled impl c.metadata)
            && is_some (context recast junk impl c))

  module _ (layout : Layout) where
    -- Whose tokens the cache may hold after a call of the sequence `t`, if it could hold those of
    -- `owner` before.
    abbrev pub next_owner : Call V → Option (ℕ → V) → (ℕ → V) → Option (ℕ → V)
    next_owner c owner t = if resets c then none else if single c then some t else owner

    abbrev pub OwnedBy : Option (ℕ → V) → (ℕ → V) → Type 0
    OwnedBy none t = Unit {0}
    OwnedBy (some p) t = p ≡ t

    -- A call of one sequence that resets nothing is of the sequence of the calls before it.
    abbrev pub Follows : Bool → Bool → Call V → Option (ℕ → V) → (ℕ → V) → Type 0
    Follows false true c owner t = OwnedBy owner t × Serves layout t (decode_of c)
    Follows _ _ c owner t = Unit {0}

    -- Calls with the tokens of their sequences: between two sequences there is a prefill.
    abbrev pub IsSession : Option (ℕ → V) → List (Call V × (ℕ → V)) → Type 0
    IsSession owner [] = Unit {0}
    IsSession owner ((c, t) ∷ calls) =
        Follows (resets c) (single c) c owner t × IsSession (next_owner c owner t) calls

    -- A dense decode runs on the tokens of the sequence, as many as its length and the length on
    -- the host say; an error of the shapes comes only in a prefill.
    abbrev pub IsReadAs : Call V → (ℕ → V) → Route V → Type 0
    IsReadAs c t (dense_cache tokens n) =
        let m = c.metadata in
        (n ≡ min (get_or m.seq_lens 0 0) (get_or (on_host m.seq_lens_cpu m.seq_lens) 0 0))
        × ((i : ℕ) → i < n → tokens i ≡ t i)
    IsReadAs c t shape_error = 1 < c.metadata.max_query_len
    IsReadAs c t _ = Unit {0}

    abbrev pub AreRead : DecodeCache V → List (Call V × (ℕ → V)) → Type 0
    AreRead s [] = Unit {0}
    AreRead s ((c, t) ∷ calls) =
        let r = forward recast junk impl (some c) s in IsReadAs c t r.0 × AreRead r.1 calls
