-- ===== src/Flash/Forward/Session/Stale.antt =====
-- Where no prefill stands between two sequences, the cache is taken for the wrong one.
use v100_skinny_unify.Prelude.{
  ℕ, ◌+◌, ◌<◌, ◌≡◌, refl, sym, ap, ◌∙◌, inl, inr, true, Option, some, if_true, arith,
}
use mathlib.Core.Path.{subst}
use v100_skinny_unify.Prelude.Options.{◌>>=◌}
use v100_skinny_unify.Prelude.Lists.{get_or}
use v100_skinny_unify.Flash.Cache.{
  Layout, Cached, DecodeCache, Decode, write_tokens, is_allocated, is_hit, write_cached,
  get_decode_kv,
}
use v100_skinny_unify.Flash.Cache.Reads.{write_tokens-below, IsFor, ensure-HasRoom}
use v100_skinny_unify.Flash.Forward.Settings.{Impl}
use v100_skinny_unify.Flash.Forward.{
  on_host, Call, Route, dense_cache, decode_of, run_dense, forward,
}
use v100_skinny_unify.Flash.Forward.Session.{NotRead}
use v100_skinny_unify.Flash.Forward.Session.Moves.{Moves, forward-Moves}

module _ {V : Type 0} (recast : Layout → Layout → Option (V → V)) (junk : ℕ → V) (layout : Layout)
    (recast_same : recast layout layout ≡ some (λ v. v)) where
  -- The cache holds the sequence `p` and the lengths of the call fit it.
  pub record LooksLike (p : ℕ → V) (s : DecodeCache V) (d : Decode V) : Type 0 where
    pub cache : Cached V
    pub is_cached : s.cached ≡ some cache
    pub holds : IsFor layout p s
    pub longer : s.len < d.seq_len
    pub lens_fit : d.seq_len ≡ s.len + d.q_len
    pub key_is : d.key_layout ≡ layout

  looks-hit :
      (p : ℕ → V) (s : DecodeCache V) (d : Decode V)
      → LooksLike p s d
      → is_hit recast junk d s ≡ true
  unfolding is_hit is_allocated
  looks-hit p s d h =
      let there : is_allocated s.cached ≡ true = ap is_allocated h.is_cached in
      ground (arith, h.longer, h.lens_fit)

  old-tokens :
      (p : ℕ → V) (s : DecodeCache V) (d : Decode V)
      → LooksLike p s d
      → (out : ℕ → V) × (after : DecodeCache V) × (get_decode_kv recast junk d s
          ≡ some (out, after))
        × ((i : ℕ) → i < s.len → out i ≡ p i)
  unfolding get_decode_kv write_cached ◌>>=◌
  old-tokens p s d h =
      let one = ensure-HasRoom recast junk layout recast_same p d.seq_len s h.holds in
      let out = write_tokens s.len d.seq_len d.new_tokens one.cache.tokens in
      (
        out,
        record {
          cached = some (record { layout = one.cache.layout; tokens = out });
          len = d.seq_len;
          capacity = one.capacity;
        },
        if_true _ _ _ (looks-hit p s d h) ∙ rw (h.key_is, one.returned) refl,
        λ i lt.
            write_tokens-below s.len d.seq_len i d.new_tokens one.cache.tokens lt ∙ one.kept.2 i lt,
      )

  tokens_of : Route V → ℕ → V
  tokens_of (dense_cache tokens n) = tokens
  tokens_of _ = junk

  old-route :
      (impl : Impl) (p : ℕ → V) (c : Call V) (s : DecodeCache V) (r : Route V × DecodeCache V)
      (tokens : ℕ → V) (n : ℕ)
      → LooksLike p s (decode_of c)
      → Moves recast junk impl c s r
      → r.0 ≡ dense_cache tokens n
      → (i : ℕ) → i < s.len
      → tokens i ≡ p i
  unfolding decode_of tokens_of
  old-route impl p c s r tokens n h (inl (forgets, empty, other)) read i lt =
      absurd (subst (NotRead c) read other)
  old-route impl p c s r tokens n h (inr (inl (stays, same, other))) read i lt =
      absurd (subst (NotRead c) read other)
  old-route impl p c s r tokens n h (inr (inr (stays, one, ran))) read i lt =
      let (out, after, returned, old) = old-tokens p s (decode_of c) h in
      let host = get_or (on_host c.metadata.seq_lens_cpu c.metadata.seq_lens) 0 0 in
      let run : Option ((ℕ → V) × DecodeCache V) → Route V × DecodeCache V =
        λ o. run_dense recast junk impl (get_or c.metadata.seq_lens 0 0) host s o in
      ap (λ q. tokens_of q i) (sym read ∙ ap (λ q. q.0) (ran ∙ ap run returned)) ∙ old i lt

  -- The dense cache is not keyed by a request: a dense decode whose lengths fit what the cache holds
  -- of a sequence runs on that sequence's tokens, whichever sequence the decode is of and whatever
  -- its pages hold.
  pub forward-stale :
      (impl : Impl) (p : ℕ → V) (c : Call V) (s : DecodeCache V) (tokens : ℕ → V) (n : ℕ)
      → LooksLike p s (decode_of c)
      → (forward recast junk impl (some c) s).0 ≡ dense_cache tokens n
      → (i : ℕ) → i < s.len
      → tokens i ≡ p i
  forward-stale impl p c s tokens n h read =
      old-route impl p c s (forward recast junk impl (some c) s) tokens n h
        (forward-Moves recast junk impl c s) read
