-- ===== src/Qpn8/Dispatch/Chunks.antt =====
-- The chunked band: blocks of at most 8 rows, concatenated.
use v100_skinny_unify.Prelude.{
  ℕ, zero, suc, ◌+◌, ◌*◌, ◌/◌, ◌≤◌, ◌≡◌, refl, sym, ap, ap₂, ◌∙◌, List, [], ◌∷◌, ◌++◌, map, arith,
}
use mathlib.Core.List.{map-append}
use v100_skinny_unify.Prelude.Lists.{
  length, take, drop, take-append-drop, length-take_le, length-drop,
}
use v100_skinny_unify.Qpn8.Dispatch.{chunk_rows, run_chunked}

module _ {X Y : Type 0} (gemm : List X → List Y) (f : X → Y)
    (row_wise : (xs : List X) → length xs ≤ 8 → gemm xs ≡ map f xs) where
  chunk_rows-map :
      (fuel : ℕ) (xs : List X) → length xs ≤ 8 * fuel → chunk_rows gemm fuel xs ≡ map f xs
  unfolding chunk_rows
  chunk_rows-map zero [] h = refl
  chunk_rows-map zero (x ∷ xs) h = absurd (omega arith)
  chunk_rows-map (suc fuel) xs h =
      ap₂ (λ a b. a ++ b) (row_wise (take 8 xs) (length-take_le 8 xs))
        (chunk_rows-map fuel (drop 8 xs) (omega (arith, length-drop 8 xs)))
      ∙ sym (map-append f (take 8 xs) (drop 8 xs))
      ∙ ap (map f) (take-append-drop 8 xs)

  -- If the native kernel computes each of at most 8 rows by itself, the chunked band computes every
  -- row of any input by that function, in order, ragged last block included.
  pub run_chunked-map : (xs : List X) → run_chunked gemm xs ≡ map f xs
  unfolding run_chunked
  run_chunked-map xs = chunk_rows-map ((length xs + 7) / 8) xs (omega arith)
