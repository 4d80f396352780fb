-- ===== src/Flash/Forward/Prefix.antt =====
-- The dense prefill is taken only for whole sequences.
use v100_skinny_unify.Prelude.{
  ℕ, ◌≤◌, ◌≡◌, refl, sym, ap₂, ◌∙◌, Bool, true, false, not, Option, none, some, List, [], ◌∷◌, min,
  ltb, ◌==◌, if_true, arith,
}
use mathlib.Core.Path.{subst}
use v100_skinny_unify.Prelude.Options.{some_injective}
use v100_skinny_unify.Prelude.Lists.{length}
use v100_skinny_unify.Queries.{query_lens, last_or, IsMonotone}
use v100_skinny_unify.Flash.Cache.{Layout, DecodeCache}
use v100_skinny_unify.Flash.Dense.{dense_prefill}
use v100_skinny_unify.Flash.Dense.Runs.{IsBatched, IsPrefilled, dense_prefill-IsPrefilled}
use v100_skinny_unify.Flash.Forward.Settings.{Impl, supports_flash_v100_path}
use v100_skinny_unify.Flash.Forward.Routes.{branch}
use v100_skinny_unify.Flash.Forward.{
  Metadata, CommonLens, first_of, attach_common, differ, any_differs, decode_dense_cache,
  has_prefix_context, expects_more, available_query_tokens, Call, Route, after_context, context,
  forward_prefill, forward_decode, forward,
}

-- Row by row, with as many rows.
abbrev pub AllLe : List ℕ → List ℕ → Type 0
AllLe [] [] = Unit {0}
AllLe [] (y ∷ ys) = ⊥
AllLe (x ∷ xs) [] = ⊥
AllLe (x ∷ xs) (y ∷ ys) = (x ≤ y) × AllLe xs ys

AllLe-refl : (xs : List ℕ) → AllLe xs xs
AllLe-refl [] = tt
AllLe-refl (x ∷ xs) = (omega arith, AllLe-refl xs)

AllLe-length : (xs ys : List ℕ) → AllLe xs ys → length xs ≡ length ys
AllLe-length [] [] h = refl
AllLe-length [] (y ∷ ys) h = absurd h
AllLe-length (x ∷ xs) [] h = absurd h
AllLe-length (x ∷ xs) (y ∷ ys) h = omega (arith, AllLe-length xs ys h.1)

-- What differs nowhere is equal, and so is what lies between.
differ-between : (qs ss us : List ℕ) → AllLe qs ss → AllLe ss us → differ qs us ≡ false → qs ≡ ss
unfolding differ
differ-between [] [] us h k e = refl
differ-between [] (s ∷ ss) us h k e = absurd h
differ-between (q ∷ qs) [] us h k e = absurd h
differ-between (q ∷ qs) (s ∷ ss) [] h k e = absurd k
differ-between (q ∷ qs) (s ∷ ss) (u ∷ us) h k e =
    ap₂ (λ (n : ℕ) (ns : List ℕ). n ∷ ns) (ground arith)
      (differ-between qs ss us h.1 k.1 (ground arith))

-- The lengths of the common metadata, against those of the device: where the exact copy is missing
-- there may be a bound from above. Every sequence holds its query.
pub record IsCommon (common : CommonLens) (locs : List ℕ) (seq_lens : List ℕ) : Type 0 where
  pub exact_is : (l : List ℕ) → common.exact ≡ some l → l ≡ seq_lens
  pub bound_is : (l : List ℕ) → common.upper_bound ≡ some l → AllLe seq_lens l
  pub copied_is : common.copied ≡ seq_lens
  pub has_query : AllLe (query_lens locs) seq_lens

first_of-le :
    (exact upper : Option (List ℕ)) (copied seq_lens : List ℕ)
    → ((l : List ℕ) → exact ≡ some l → l ≡ seq_lens)
    → ((l : List ℕ) → upper ≡ some l → AllLe seq_lens l)
    → copied ≡ seq_lens
    → AllLe seq_lens (first_of exact upper copied)
first_of-le (some l) upper copied seq_lens e b c =
    subst (AllLe seq_lens) (sym (e l refl)) (AllLe-refl seq_lens)
first_of-le none (some l) copied seq_lens e b c = b l refl
first_of-le none none copied seq_lens e b c = subst (AllLe seq_lens) (sym c) (AllLe-refl seq_lens)

any_differs-same :
    (qs us : List ℕ) → length qs ≡ length us → any_differs qs us ≡ some (differ qs us)
unfolding any_differs
any_differs-same qs us same = if_true (length qs == length us) _ _ (ground arith)

module _ {V : Type 0} (recast : Layout → Layout → Option (V → V)) (junk : ℕ → V) (impl : Impl) where
  after_context-dense :
      (o : Option Bool) (s : DecodeCache V)
      → (after_context recast junk impl o s).0 ≡ Route.dense_prefill
      → o ≡ some false
  after_context-dense none s e = absurd (ground arith)
  after_context-dense (some true) s e = absurd (ground arith)
  after_context-dense (some false) s e = refl

  module _ (c : Call V) (s : DecodeCache V) where
    -- A route that is the dense prefill was taken for the lack of a context.
    abbrev NoContext : Route V → Type 0
    NoContext r = r ≡ Route.dense_prefill → context recast junk impl c ≡ some false

    dense_cache-not_prefill : NoContext (decode_dense_cache recast junk impl c s).0
    unfolding decode_dense_cache
    dense_cache-not_prefill e = absurd (ground arith)

    decode-NoContext : NoContext (forward_decode recast junk impl c s).0
    unfolding forward_decode
    decode-NoContext e = ground (arith, dense_cache-not_prefill)

    prefill-NoContext : NoContext (forward_prefill recast junk impl c s).0
    unfolding forward_prefill
    prefill-NoContext e = ground (arith, after_context-dense (context recast junk impl c) s)

    forward-NoContext : NoContext (forward recast junk impl (some c) s).0
    unfolding forward
    forward-NoContext =
        branch (not (supports_flash_v100_path impl)) NoContext _ _
          (λ no_path e. absurd (ground arith))
          (λ path.
            branch (ltb 1 c.metadata.max_query_len) NoContext _ _ (λ long. prefill-NoContext)
              (λ short. decode-NoContext))

  -- The call of a layer whose metadata have the common ones attached.
  abbrev pub with_common : CommonLens → List ℕ → Call V → Call V
  with_common common locs c = record c { metadata = attach_common common locs c.metadata }

  no_context-whole :
      (common : CommonLens) (locs : List ℕ) (c : Call V)
      → IsCommon common locs c.metadata.seq_lens
      → has_prefix_context (attach_common common locs c.metadata) ≡ some false
      → query_lens locs ≡ c.metadata.seq_lens
  unfolding has_prefix_context attach_common
  no_context-whole common locs c h e =
      let lens = c.metadata.seq_lens in
      let chosen = first_of common.exact common.upper_bound common.copied in
      let above : AllLe lens chosen =
        first_of-le common.exact common.upper_bound common.copied lens h.exact_is h.bound_is
          h.copied_is in
      let same : length (query_lens locs) ≡ length chosen =
        AllLe-length (query_lens locs) lens h.has_query ∙ AllLe-length lens chosen above in
      differ-between (query_lens locs) lens chosen h.has_query above
        (some_injective (sym (any_differs-same (query_lens locs) chosen same) ∙ e))

  context-false :
      (c : Call V)
      → context recast junk impl c ≡ some false
      → (expects_more c.metadata (available_query_tokens recast junk impl c) ≡ false)
        × (has_prefix_context c.metadata ≡ some false)
  unfolding context
  context-false c e = ground arith

  expects-le :
      (common : CommonLens) (a b : ℕ) (rest : List ℕ) (m : Metadata) (available : ℕ)
      → expects_more (attach_common common (a ∷ b ∷ rest) m) available ≡ false
      → last_or a (b ∷ rest) ≤ available
  unfolding expects_more attach_common
  expects-le common a b rest m available e = ground arith

  -- A call that takes the dense prefill needs nothing from the cache, and returns: no sequence of the
  -- batch has more than its query, even where the lengths on the host are only bounds from above, and
  -- every row of a sequence is what the kernel makes of that whole sequence. The batch has a request
  -- and at least as many tokens as its locations, which rise; each sequence holds its query; the
  -- kernel attends each sequence of a batch by itself.
  pub dense-IsWhole :
      {X Y : Type 0} (attn : ℕ → ℕ → (ℕ → X) → ℕ → Y) (x : ℕ → X) (out : ℕ → Y)
      (common : CommonLens) (a b : ℕ) (rest : List ℕ) (c : Call V) (s : DecodeCache V)
      → IsBatched attn
      → IsCommon common (a ∷ b ∷ rest) c.metadata.seq_lens
      → IsMonotone (a ∷ b ∷ rest)
      → last_or a (b ∷ rest) ≤ c.metadata.num_actual_tokens
      → (forward recast junk impl (some (with_common common (a ∷ b ∷ rest) c)) s).0
        ≡ Route.dense_prefill
      → let rows = min c.metadata.num_actual_tokens (available_query_tokens recast junk impl c) in
        (query_lens (a ∷ b ∷ rest) ≡ c.metadata.seq_lens)
        × IsPrefilled attn x rows a (b ∷ rest) out (dense_prefill attn x rows (a ∷ b ∷ rest) out)
  unfolding attach_common available_query_tokens
  dense-IsWhole attn x out common a b rest c s batched h rises actual e =
      let c' = with_common common (a ∷ b ∷ rest) c in
      let (more, prefix) = context-false c' (forward-NoContext c' s e) in
      (
        no_context-whole common (a ∷ b ∷ rest) c h prefix,
        dense_prefill-IsPrefilled attn x
            (min c.metadata.num_actual_tokens (available_query_tokens recast junk impl c)) a
            (b ∷ rest) out batched rises
            (omega (
              arith,
              expects-le common a b rest c.metadata (available_query_tokens recast junk impl c')
                  more,
              actual,
            )),
      )
