-- ===== src/Flash/Cache/Reads.antt =====
-- What the dense cache holds while one sequence is decoded.
use v100_skinny_unify.Prelude.{
  ℕ, ◌+◌, ◌-◌, ◌≤◌, ◌<◌, ◌≡◌, refl, sym, ap, ◌∙◌, inl, inr, true, false, Option, none, some, List,
  [], ◌∷◌, ◌⊎◌, ltb, leb, ◌&&◌, if_true, if_false, arith, Bool-cases,
}
use mathlib.Core.Path.{subst}
use v100_skinny_unify.Prelude.Options.{◌>>=◌}
use v100_skinny_unify.Prelude.Int.{ℤ}
use v100_skinny_unify.Flash.Pages.{extract_sequence, extract_contiguous_kv}
use v100_skinny_unify.Flash.Pages.Extract.{token, extract_sequence-IsCopied}
use v100_skinny_unify.Flash.Cache.{
  Layout, same_layout, Cached, DecodeCache, Decode, reset, write_tokens, has_layout, new_capacity,
  moved, ensure_capacity, write_cached, is_hit, extracted, get_decode_kv,
}

module _ {V : Type 0} where
  pub write_tokens-new :
      (lo hi i : ℕ) (values out : ℕ → V)
      → lo ≤ i
      → i < hi
      → write_tokens lo hi values out i ≡ values (i - lo)
  unfolding write_tokens
  write_tokens-new lo hi i values out low high = if_true (leb lo i && ltb i hi) _ _ (ground arith)

  pub write_tokens-below :
      (lo hi i : ℕ) (values out : ℕ → V) → i < lo → write_tokens lo hi values out i ≡ out i
  unfolding write_tokens
  write_tokens-below lo hi i values out low = if_false (leb lo i && ltb i hi) _ _ (ground arith)

  -- The rows of an allocated cache are the first `len` of `tok`; one that is not allocated is empty.
  abbrev pub HasTokens : Layout → (ℕ → V) → ℕ → ℕ → Option (Cached V) → Type 0
  HasTokens layout tok len capacity none = (len ≡ 0) × (capacity ≡ 0)
  HasTokens layout tok len capacity (some c) =
      (c.layout ≡ layout) × (len ≤ capacity) × ((i : ℕ) → i < len → c.tokens i ≡ tok i)

  abbrev pub IsFor : Layout → (ℕ → V) → DecodeCache V → Type 0
  IsFor layout tok s = HasTokens layout tok s.len s.capacity s.cached

  pub reset-IsFor : (layout : Layout) (tok : ℕ → V) → IsFor layout tok reset
  unfolding reset
  reset-IsFor layout tok = (refl, refl)

  -- The call is of the sequence `tok`: its pages hold the tokens up to the length, and the rows of the
  -- call are the last of them.
  pub record Serves (layout : Layout) (tok : ℕ → V) (d : Decode V) : Type 0 where
    pub row : List ℤ
    pub one_sequence : d.batch ≡ (row, d.seq_len) ∷ []
    pub some_slot : 0 < d.block_size
    pub in_pages : (i : ℕ) → i < d.seq_len → token d.pages d.block_size d.paged row i ≡ tok i
    pub in_range : d.q_len ≤ d.seq_len
    pub in_call : (j : ℕ) → j < d.q_len → d.new_tokens j ≡ tok (d.seq_len - d.q_len + j)
    pub key_is : d.key_layout ≡ layout
    pub paged_is : d.paged_layout ≡ layout

  -- What a call returns: the tokens of the sequence, and a cache of them.
  pub record IsRead (layout : Layout) (tok : ℕ → V) (d : Decode V)
      (r : Option ((ℕ → V) × DecodeCache V)) : Type 0 where
    pub out : ℕ → V
    pub after : DecodeCache V
    pub returned : r ≡ some (out, after)
    pub read : (i : ℕ) → i < d.seq_len → out i ≡ tok i
    pub kept : IsFor layout tok after
    pub len_is : after.len ≡ d.seq_len

  module _ (recast : Layout → Layout → Option (V → V)) (junk : ℕ → V) (layout : Layout)
      (recast_same : recast layout layout ≡ some (λ v. v)) where
    extracted-tok :
        (tok : ℕ → V) (d : Decode V) (i : ℕ)
        → Serves layout tok d
        → i < d.seq_len
        → extracted recast junk d i ≡ tok i
    unfolding extracted extract_contiguous_kv
    extracted-tok tok d i h lt =
        let one =
          extract_sequence-IsCopied d.pages d.block_size d.paged h.row d.seq_len 0 junk
            h.some_slot in
        ap (λ b. (extract_contiguous_kv d.pages d.block_size d.paged b (0, junk)).1 i)
          h.one_sequence
        ∙ ap (extract_sequence d.pages d.block_size d.paged h.row d.seq_len (0, junk)).1
            (omega arith)
        ∙ one.copied i lt
        ∙ h.in_pages i lt

    -- There is room for `n` rows, in a cache with the same tokens.
    pub record HasRoom (tok : ℕ → V) (n : ℕ) (s : DecodeCache V) (r : Option (DecodeCache V))
        : Type 0 where
      pub cache : Cached V
      pub capacity : ℕ
      pub returned : r ≡ some (record { cached = some cache; len = s.len; capacity = capacity })
      pub room : n ≤ capacity
      pub growth :
          ((capacity ≡ s.capacity) × ((has_layout layout s.cached && leb n s.capacity) ≡ true))
          ⊎ ((s.capacity ≤ n) × (capacity ≡ new_capacity n s.capacity))
      pub kept : HasTokens layout tok s.len capacity (some cache)

    moved-tokens :
        (len : ℕ) (c : Cached V)
        → c.layout ≡ layout
        → (ts : ℕ → V) × (moved recast junk layout len (some c) ≡ some ts)
          × ((i : ℕ) → i < len → ts i ≡ c.tokens i)
    unfolding moved ◌>>=◌
    moved-tokens len c same = elim (Bool-cases (ltb 0 len)) [
      | inl full ↦ (
        write_tokens 0 len (λ i. c.tokens i) junk,
        if_true (ltb 0 len) _ _ full ∙ rw (ap (λ l. recast l layout) same ∙ recast_same) refl,
        λ i lt. write_tokens-new 0 len i c.tokens junk (omega arith) lt ∙ ap c.tokens (omega arith),
      )
      | inr empty ↦ (junk, if_false (ltb 0 len) _ _ empty, λ i lt. absurd (ground arith))
    ]

    new_capacity-room :
        (n capacity : ℕ) → (n ≤ new_capacity n capacity) × (capacity ≤ new_capacity n capacity)
    unfolding new_capacity
    new_capacity-room n capacity = omega arith

    too_small :
        (n capacity : ℕ) (c : Cached V)
        → c.layout ≡ layout
        → (same_layout c.layout layout && leb n capacity) ≡ false
        → capacity ≤ n
    too_small n capacity c same moves = ground (
      arith,
      ap Layout.num_kv_heads same,
      ap Layout.head_dim same,
      ap Layout.dtype same,
      ap Layout.device same,
    )

    -- A cache that has the layout and the room stays, any other is moved to new tensors.
    ensure_parts :
        (tok : ℕ → V) (n len capacity : ℕ) (o : Option (Cached V))
        → HasTokens layout tok len capacity o
        → let s : DecodeCache V = record { cached = o; len = len; capacity = capacity } in
          HasRoom tok n s (ensure_capacity recast junk n layout s)
    unfolding ensure_capacity ◌>>=◌ has_layout moved
    ensure_parts tok n len capacity none h = record {
      cache = record { layout = layout; tokens = junk };
      capacity = new_capacity n capacity;
      returned = refl;
      room = (new_capacity-room n capacity).0;
      growth = inr (omega (arith, h), refl);
      kept = (refl, omega arith, λ i lt. absurd (omega arith));
    }
    ensure_parts tok n len capacity (some c) (same, fits, at) =
        elim (Bool-cases (same_layout c.layout layout && leb n capacity)) [
          | inl stays ↦ record {
            cache = c;
            capacity = capacity;
            returned = if_true (same_layout c.layout layout && leb n capacity) _ _ stays;
            room = ground arith;
            growth = inl (refl, stays);
            kept = (same, fits, at);
          }
          | inr moves ↦
              let (ts, new_rows, old_rows) = moved-tokens len c same in
              record {
                cache = record { layout = layout; tokens = ts };
                capacity = new_capacity n capacity;
                returned =
                    if_false (same_layout c.layout layout && leb n capacity) _ _ moves
                    ∙ rw new_rows refl;
                room = (new_capacity-room n capacity).0;
                growth = inr (too_small n capacity c same moves, refl);
                kept = (
                  refl,
                  omega (arith, new_capacity-room n capacity),
                  λ i lt. old_rows i lt ∙ at i lt,
                );
              }
        ]

    pub ensure-HasRoom :
        (tok : ℕ → V) (n : ℕ) (s : DecodeCache V)
        → IsFor layout tok s
        → HasRoom tok n s (ensure_capacity recast junk n layout s)
    ensure-HasRoom tok n s h = ensure_parts tok n s.len s.capacity s.cached h

    -- The rows from `lo` on are written, behind tokens of the sequence.
    written-IsRead :
        (tok : ℕ → V) (lo : ℕ) (values : ℕ → V) (d : Decode V) (s t : DecodeCache V) (c : Cached V)
        → t.cached ≡ some c
        → HasTokens layout tok t.len t.capacity (some c)
        → lo ≤ t.len
        → d.seq_len ≤ t.capacity
        → ((i : ℕ) → lo ≤ i → i < d.seq_len → values (i - lo) ≡ tok i)
        → IsRead layout tok d (write_cached recast junk lo d.seq_len values t t.cached)
    unfolding write_cached
    written-IsRead tok lo values d s t c e (same, fits, at) low room new =
        let tokens = write_tokens lo d.seq_len values c.tokens in
        let all = λ (i : ℕ) (lt : i < d.seq_len).
          elim (Bool-cases (ltb i lo)) as (λ _. tokens i ≡ tok i) [
            | inl old ↦
                write_tokens-below lo d.seq_len i values c.tokens (ground arith)
                ∙ at i (ground arith)
            | inr fresh ↦
                write_tokens-new lo d.seq_len i values c.tokens (ground arith) lt
                ∙ new i (ground arith) lt
          ] in
        record {
          out = tokens;
          after = record t { cached = some (record c { tokens = tokens }); len = d.seq_len };
          returned = ap (write_cached recast junk lo d.seq_len values t) e;
          read = all;
          kept = (same, room, all);
          len_is = refl;
        }

    hit-lens :
        (d : Decode V) (s : DecodeCache V)
        → is_hit recast junk d s ≡ true
        → (s.len < d.seq_len) × (d.seq_len ≡ s.len + d.q_len)
    unfolding is_hit
    hit-lens d s hit = ground arith

    -- A call of the sequence reads its tokens, whether they are in the cache or come from its pages,
    -- and leaves them in the cache.
    pub get_decode_kv-IsRead :
        (tok : ℕ → V) (d : Decode V) (s : DecodeCache V)
        → IsFor layout tok s
        → Serves layout tok d
        → IsRead layout tok d (get_decode_kv recast junk d s)
    unfolding get_decode_kv ◌>>=◌
    get_decode_kv-IsRead tok d s h call =
        let one = ensure-HasRoom tok d.seq_len s h in
        let t : DecodeCache V = record {
          cached = some one.cache;
          len = s.len;
          capacity = one.capacity;
        } in
        elim (Bool-cases (is_hit recast junk d s)) [
          | inl hit ↦
              let lens = hit-lens d s hit in
              subst (IsRead layout tok d)
                (sym
                  (if_true (is_hit recast junk d s) _ _ hit ∙ rw (call.key_is, one.returned) refl))
                (written-IsRead tok s.len d.new_tokens d s t one.cache refl one.kept (omega arith)
                  one.room
                  (λ i low lt.
                    call.in_call (i - s.len) (omega (arith, lens)) ∙ ap tok (omega (arith, lens))))
          | inr miss ↦
              subst (IsRead layout tok d)
                (sym (
                  if_false (is_hit recast junk d s) _ _ miss
                  ∙ rw (call.paged_is, one.returned) refl))
                (written-IsRead tok 0 (extracted recast junk d) d s t one.cache refl one.kept
                  (omega arith) one.room
                  (λ i low lt.
                    ap (extracted recast junk d) (omega arith) ∙ extracted-tok tok d i call lt))
        ]
