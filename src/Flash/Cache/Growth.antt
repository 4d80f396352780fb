-- ===== src/Flash/Cache/Growth.antt =====
-- How the dense cache grows: the room and the rows that are moved, over any calls of one layout,
-- whichever sequences they are of.
use v100_skinny_unify.Prelude.{
  ℕ, ◌+◌, ◌*◌, ◌≤◌, ◌≡◌, refl, inl, inr, ap, ◌∙◌, max, Option, none, some, List, [], ◌∷◌, leb, ◌&&◌,
  if◌then◌else◌, arith, Bool-cases, if_true, if_false,
}
use v100_skinny_unify.Prelude.Options.{◌>>=◌}
use v100_skinny_unify.Flash.Cache.{
  Layout, Cached, DecodeCache, Decode, reset, write_tokens, new_capacity, ensure_capacity,
  write_cached, is_hit, extracted, get_decode_kv, has_layout,
}
use v100_skinny_unify.Flash.Cache.Reads.{HasTokens, HasRoom, ensure-HasRoom}

module _ {V : Type 0} (recast : Layout → Layout → Option (V → V)) (junk : ℕ → V) where
  -- The rows of the old tensors that a call copies to new ones.
  abbrev pub rows_moved : Decode V → DecodeCache V → ℕ
  rows_moved d s =
      if has_layout (if is_hit recast junk d s then d.key_layout else d.paged_layout) s.cached
        && leb d.seq_len s.capacity
      then 0
      else s.len

  -- Calls one after another, with the number of rows that they have moved.
  unfoldable pub after_decodes : List (Decode V) → ℕ × DecodeCache V → Option (ℕ × DecodeCache V)
  unfolding ◌>>=◌ get_decode_kv
  after_decodes [] s = some s
  after_decodes (d ∷ ds) (moved, s) =
      get_decode_kv recast junk d s >>= λ (_, t). after_decodes ds (moved + rows_moved d s, t)

  module _ (layout : Layout) (recast_same : recast layout layout ≡ some (λ v. v)) (m : ℕ) where
    -- No call is for more than `m` tokens.
    pub record IsCall (d : Decode V) : Type 0 where
      pub key_is : d.key_layout ≡ layout
      pub paged_is : d.paged_layout ≡ layout
      pub short : d.seq_len ≤ m

    abbrev pub AreCalls : List (Decode V) → Type 0
    AreCalls [] = Unit {0}
    AreCalls (d ∷ ds) = IsCall d × AreCalls ds

    pub record IsSmall (moved : ℕ) (s : DecodeCache V) : Type 0 where
      pub rows : ℕ → V
      pub sized : HasTokens layout rows s.len s.capacity s.cached
      pub bound : s.capacity ≤ max 16 (2 * m)
      pub paid : moved ≤ s.capacity

    -- One call returns, in a cache that is small again.
    pub record StaysSmall (moved : ℕ) (d : Decode V) (s : DecodeCache V) : Type 0 where
      pub out : ℕ → V
      pub after : DecodeCache V
      pub returned : get_decode_kv recast junk d s ≡ some (out, after)
      pub small : IsSmall (moved + rows_moved d s) after

    call_layout :
        (d : Decode V) (s : DecodeCache V)
        → IsCall d
        → (if is_hit recast junk d s then d.key_layout else d.paged_layout) ≡ layout
    call_layout d s call = elim (Bool-cases (is_hit recast junk d s)) [
      | inl hit ↦ if_true _ _ _ hit ∙ call.key_is
      | inr miss ↦ if_false _ _ _ miss ∙ call.paged_is
    ]

    len-le-capacity :
        (rows : ℕ → V) (len capacity : ℕ) (o : Option (Cached V))
        → HasTokens layout rows len capacity o
        → len ≤ capacity
    len-le-capacity rows len capacity none h = omega (arith, h)
    len-le-capacity rows len capacity (some c) h = h.1

    rows_moved-le : (d : Decode V) (s : DecodeCache V) → rows_moved d s ≤ s.len
    rows_moved-le d s = ground arith

    new_capacity_bounds :
        (n capacity : ℕ)
        → capacity ≤ n
        → n ≤ m
        → (capacity * 2 ≤ new_capacity n capacity) × (new_capacity n capacity ≤ max 16 (2 * m))
    unfolding new_capacity
    new_capacity_bounds n capacity small short = omega arith

    grown-IsSmall :
        (moved : ℕ) (d : Decode V) (s : DecodeCache V) (h : IsSmall moved s) (tokens : ℕ → V)
        → IsCall d
        → (one : HasRoom recast junk layout recast_same h.rows d.seq_len s
            (ensure_capacity recast junk d.seq_len layout s))
        → IsSmall (moved + rows_moved d s) (record {
          cached = some (record { layout = one.cache.layout; tokens = tokens });
          len = d.seq_len;
          capacity = one.capacity;
        })
    grown-IsSmall moved d s h tokens call one =
        let some_len = len-le-capacity h.rows s.len s.capacity s.cached h.sized in
        let (bound, paid) : (one.capacity ≤ max 16 (2 * m))
            × (moved + rows_moved d s ≤ one.capacity) =
          elim one.growth [
            | inl (same, stays) ↦
                let none_moved : rows_moved d s ≡ 0 =
                  ap (λ l. if has_layout l s.cached && leb d.seq_len s.capacity then 0 else s.len)
                    (call_layout d s call)
                  ∙ if_true _ _ _ stays in
                (omega (arith, h.bound), omega (arith, h.paid))
            | inr (small, grown) ↦
                let bounds = new_capacity_bounds d.seq_len s.capacity small call.short in
                let few = rows_moved-le d s in
                (omega (arith, bounds), omega (arith, bounds, h.paid))
          ] in
        record {
          rows = tokens;
          sized = (one.kept.0, one.room, λ i lt. refl);
          bound = bound;
          paid = paid;
        }

    step-IsSmall :
        (moved : ℕ) (d : Decode V) (s : DecodeCache V)
        → IsCall d
        → IsSmall moved s
        → StaysSmall moved d s
    unfolding get_decode_kv write_cached ◌>>=◌
    step-IsSmall moved d s call h =
        let one = ensure-HasRoom recast junk layout recast_same h.rows d.seq_len s h.sized in
        elim (Bool-cases (is_hit recast junk d s)) [
          | inl hit ↦
              let tokens = write_tokens s.len d.seq_len d.new_tokens one.cache.tokens in
              record {
                out = tokens;
                after = record {
                  cached = some (record { layout = one.cache.layout; tokens = tokens });
                  len = d.seq_len;
                  capacity = one.capacity;
                };
                returned = if_true _ _ _ hit ∙ rw (call.key_is, one.returned) refl;
                small = grown-IsSmall moved d s h tokens call one;
              }
          | inr miss ↦
              let tokens = write_tokens 0 d.seq_len (extracted recast junk d) one.cache.tokens in
              record {
                out = tokens;
                after = record {
                  cached = some (record { layout = one.cache.layout; tokens = tokens });
                  len = d.seq_len;
                  capacity = one.capacity;
                };
                returned = if_false _ _ _ miss ∙ rw (call.paged_is, one.returned) refl;
                small = grown-IsSmall moved d s h tokens call one;
              }
        ]

    pub record AreSmall (r : Option (ℕ × DecodeCache V)) : Type 0 where
      pub moved : ℕ
      pub after : DecodeCache V
      pub returned : r ≡ some (moved, after)
      pub small : IsSmall moved after

    after_decodes-from :
        (ds : List (Decode V)) (moved : ℕ) (s : DecodeCache V)
        → AreCalls ds
        → IsSmall moved s
        → AreSmall (after_decodes ds (moved, s))
    unfolding after_decodes ◌>>=◌
    after_decodes-from [] moved s calls h = record {
      moved = moved;
      after = s;
      returned = refl;
      small = h;
    }
    after_decodes-from (d ∷ ds) moved s (call, calls) h =
        let one = step-IsSmall moved d s call h in
        let rest = after_decodes-from ds (moved + rows_moved d s) one.after calls one.small in
        record {
          moved = rest.moved;
          after = rest.after;
          returned = rw one.returned rest.returned;
          small = rest.small;
        }

    -- The dense cache stays small and its growth is paid for: calls of one layout return, in any
    -- number and of any sequences, with room for twice the longest sequence or 16 tokens at most, and
    -- all growing together has copied no more rows than there is room for.
    pub after_decodes-AreSmall :
        (ds : List (Decode V)) → AreCalls ds → AreSmall (after_decodes ds (0, reset))
    unfolding reset
    after_decodes-AreSmall ds calls =
        after_decodes-from ds 0 reset calls
          (record { rows = junk; sized = (refl, refl); bound = omega arith; paid = omega arith })
