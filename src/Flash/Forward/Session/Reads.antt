-- ===== src/Flash/Forward/Session/Reads.antt =====
-- Over a session of calls every dense decode reads the tokens of its own sequence.
use v100_skinny_unify.Prelude.{
  ℕ, ◌≡◌, refl, sym, ap, ◌∙◌, inl, inr, true, false, Option, none, some, List, [], ◌∷◌, if_true,
  if_false, arith, Bool-cases,
}
use mathlib.Core.Path.{subst}
use v100_skinny_unify.Prelude.Lists.{get_or}
use v100_skinny_unify.Flash.Cache.{Layout, DecodeCache, reset}
use v100_skinny_unify.Flash.Cache.Reads.{IsFor, reset-IsFor, Serves, get_decode_kv-IsRead}
use v100_skinny_unify.Flash.Forward.Settings.{Impl}
use v100_skinny_unify.Flash.Forward.{
  on_host, Call, Route, zero_output, raises, shape_error, untouched, triton, with_prefix,
  dense_prefill, paged_prefill, dense_reference, scalar_paged, dense_cache, decode_of, run_dense,
  forward,
}
use v100_skinny_unify.Flash.Forward.Session.{
  single, NotRead, resets, next_owner, OwnedBy, Follows, IsSession, IsReadAs, AreRead,
}
use v100_skinny_unify.Flash.Forward.Session.Moves.{Moves, forward-Moves}

module _ {V : Type 0} (recast : Layout → Layout → Option (V → V)) (junk : ℕ → V) (impl : Impl)
    (layout : Layout) (recast_same : recast layout layout ≡ some (λ v. v)) where
  -- The cache holds the tokens of its owner; without an owner it is right for every sequence.
  abbrev Owned : Option (ℕ → V) → DecodeCache V → Type 0
  Owned none s = (t : ℕ → V) → IsFor layout t s
  Owned (some p) s = IsFor layout p s

  Owned-by :
      (owner : Option (ℕ → V)) (t : ℕ → V) (s : DecodeCache V)
      → Owned owner s
      → OwnedBy recast junk impl layout owner t
      → IsFor layout t s
  Owned-by none t s h own = h t
  Owned-by (some p) t s h own = subst (λ q. IsFor layout q s) own h

  NotRead-IsReadAs :
      (c : Call V) (t : ℕ → V) (r : Route V) → NotRead c r → IsReadAs recast junk impl layout c t r
  NotRead-IsReadAs c t (dense_cache tokens n) h = absurd h
  NotRead-IsReadAs c t zero_output h = tt
  NotRead-IsReadAs c t raises h = tt
  NotRead-IsReadAs c t shape_error h = h
  NotRead-IsReadAs c t untouched h = tt
  NotRead-IsReadAs c t (triton reason) h = tt
  NotRead-IsReadAs c t (with_prefix reason) h = tt
  NotRead-IsReadAs c t dense_prefill h = tt
  NotRead-IsReadAs c t paged_prefill h = tt
  NotRead-IsReadAs c t dense_reference h = tt
  NotRead-IsReadAs c t scalar_paged h = tt

  module _ (c : Call V) (t : ℕ → V) (owner : Option (ℕ → V)) (s : DecodeCache V) where
    abbrev Next : DecodeCache V → Type 0
    Next after = Owned (next_owner recast junk impl layout c owner t) after

    -- A call of one sequence that resets nothing.
    single-Follows :
        Follows recast junk impl layout (resets recast junk impl c) (single c) c owner t
        → resets recast junk impl c ≡ false
        → single c ≡ true
        → OwnedBy recast junk impl layout owner t × Serves layout t (decode_of c)
    single-Follows follows stays one =
        subst (λ b. Follows recast junk impl layout false b c owner t) one
          (subst (λ b. Follows recast junk impl layout b (single c) c owner t) stays follows)

    Next-single :
        resets recast junk impl c ≡ false
        → single c ≡ true
        → (after : DecodeCache V) → IsFor layout t after
        → Next after
    Next-single stays one after h =
        subst (λ o. Owned o after) (sym (if_false _ _ _ stays ∙ if_true _ _ _ one)) h

    Next-other : resets recast junk impl c ≡ false → single c ≡ false → Owned owner s → Next s
    Next-other stays many h =
        subst (λ o. Owned o s) (sym (if_false _ _ _ stays ∙ if_false _ _ _ many)) h

    step-IsRead :
        (r : Route V × DecodeCache V)
        → Owned owner s
        → Follows recast junk impl layout (resets recast junk impl c) (single c) c owner t
        → Moves recast junk impl c s r
        → IsReadAs recast junk impl layout c t r.0 × Next r.1
    unfolding decode_of
    step-IsRead r h follows (inl (forgets, empty, other)) = (
      NotRead-IsReadAs c t r.0 other,
      subst (λ o. Owned o r.1) (sym (if_true _ _ _ forgets))
          (λ u. subst (IsFor layout u) (sym empty) (reset-IsFor layout u)),
    )
    step-IsRead r h follows (inr (inl (stays, same, other))) = (
      NotRead-IsReadAs c t r.0 other,
      subst Next (sym same) (elim (Bool-cases (single c)) [
        | inl one ↦
            Next-single stays one s (Owned-by owner t s h (single-Follows follows stays one).0)
        | inr many ↦ Next-other stays many h
      ]),
    )
    step-IsRead r h follows (inr (inr (stays, one, ran))) =
        let (own, serves) = single-Follows follows stays one in
        let d = decode_of c in
        let read =
          get_decode_kv-IsRead recast junk layout recast_same t d s (Owned-by owner t s h own)
            serves in
        let host = get_or (on_host c.metadata.seq_lens_cpu c.metadata.seq_lens) 0 0 in
        subst (λ q. IsReadAs recast junk impl layout c t q.0 × Next q.1)
          (sym (ran ∙ ap (run_dense recast junk impl d.seq_len host s) read.returned))
          ((refl, λ i lt. read.read i (omega arith)), Next-single stays one read.after read.kept)

  reads_from :
      (calls : List (Call V × (ℕ → V))) (owner : Option (ℕ → V)) (s : DecodeCache V)
      → Owned owner s
      → IsSession recast junk impl layout owner calls
      → AreRead recast junk impl layout s calls
  reads_from [] owner s h session = tt
  reads_from ((c, t) ∷ calls) owner s h (follows, session) =
      let (read, next) =
        step-IsRead c t owner s (forward recast junk impl (some c) s) h follows
          (forward-Moves recast junk impl c s) in
      (read, reads_from calls (next_owner recast junk impl layout c owner t) _ next session)

  -- The dense decode cache is right for every session: from a cache that is empty, whatever calls
  -- of the layer follow one another, every dense decode runs on exactly the tokens of its own
  -- sequence, whether they were kept from the calls before or read from the pages. Between two
  -- sequences that are decoded alone there is a prefill that resets the cache; each such call's pages
  -- hold its sequence, and its keys and values are the last of it; the layout is one.
  pub session-AreRead :
      (calls : List (Call V × (ℕ → V)))
      → IsSession recast junk impl layout none calls
      → AreRead recast junk impl layout reset calls
  session-AreRead calls session = reads_from calls none reset (λ t. reset-IsFor layout t) session
