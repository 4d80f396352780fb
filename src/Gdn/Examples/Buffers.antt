-- ===== src/Gdn/Examples/Buffers.antt =====
-- The theorems on the persistent buffers of the Gated DeltaNet metadata at concrete inputs: graphs of
-- 8 rows with slots of width 3, where block 0 is the padding.
use v100_skinny_unify.Prelude.{
  ℕ, ◌≡◌, refl, inl, true, false, none, some, List, [], ◌∷◌, min, arith,
}
use v100_skinny_unify.Gdn.Contract.{arange}
use v100_skinny_unify.Gdn.Fast.{Builder, Request, fast_update, Requests, spec_update}
use v100_skinny_unify.Gdn.Fast.Tails.{IsPure}
use v100_skinny_unify.Gdn.Fast.Reach.{start, fast, spec, fast-IsPure}
use v100_skinny_unify.Gdn.Fast.Stale.{fast-stale}
use v100_skinny_unify.Gdn.Index.{Index, token_index, fast_token_index, init_rows}
use v100_skinny_unify.Gdn.Index.Laws.{new, init, took, token_index-arange}

abbrev builder : Builder ℕ
builder = record {
  states = λ i. 9 ∷ [];
  tail_key = none;
  common = record {
    masks = λ i. true;
    starts = λ i. 77;
    accepted = λ i. 5;
    selectors = λ i. 5;
    initialized_key = none;
    updated_epoch = none;
  };
}

-- Two requests of three tokens each.
abbrev two : Requests ℕ
two = record {
  batch_size = 8;
  width = 3;
  states = (11 ∷ 12 ∷ 13 ∷ []) ∷ (31 ∷ 32 ∷ 33 ∷ []) ∷ [];
  masks = true ∷ true ∷ [];
  first_start = 0;
  ends = 3 ∷ 6 ∷ [];
  accepted = 1 ∷ 2 ∷ [];
  selectors = 1 ∷ 2 ∷ [];
}

-- One request of six tokens.
abbrev six : Request ℕ
six = record {
  batch_size = 8;
  query_len = 6;
  width = 3;
  epoch = some 4;
  states = 11 ∷ 12 ∷ 13 ∷ [];
  accepted = 2;
  selector = 2;
}

fast-IsPure_example :
    IsPure 0 six
      (fast_update 0 false six (fast_update 0 false six (spec_update 0 false two builder)))
fast-IsPure_example =
    fast-IsPure 0 false six (fast six (spec two (inl refl) (start refl refl))) refl

fast-stale_example :
    let c = (fast_update 0 true six (spec_update 0 true two builder)).common in
    (c.masks 1 ≡ true) × (c.starts 1 ≡ 3)
fast-stale_example = fast-stale 0 six two builder true [] 3 (6 ∷ []) refl (omega arith) refl refl

abbrev unwritten : Index
unwritten = record { numel = 24; at = λ i. 99; initialized = 0 }

token_index-arange_example :
    let x = (token_index 5 (init_rows true 3 unwritten)).0 in
    ((n : ℕ) → (token_index n x).1 ≡ arange 0 n)
    × ((width query_len : ℕ) (y : Index) (xs : List ℕ)
        → fast_token_index width query_len x ≡ some (y, xs)
        → xs ≡ arange 0 (min width query_len))
token_index-arange_example =
    token_index-arange true (token_index 5 (init_rows true 3 unwritten)).0
      (took 5 (init 3 (new refl)))
