-- ===== src/Qpn8/Scales.antt =====
-- The scales of the FP8 weights: `_sm70_qpn8_tile_scales` and the row scaling of
-- `_sm70_fp8_reference_linear` of fork_patches/modelopt.py. A scale is a float of the section's type
-- `S`; `times256` is the multiplication by 256.0, `max_of` the tensor maximum, `cast` the conversion to the
-- type of the input.
pub mod Laws
use v100_skinny_unify.Prelude.{
  ℕ, zero, suc, ◌+◌, ◌-◌, ◌/◌, ◌%◌, Bool, Option, none, some, List, [], ◌∷◌, ltb, leb, ◌==◌, ◌&&◌,
  if◌then◌else◌,
}
use v100_skinny_unify.Prelude.Lists.{length, get_elem?}

-- A result, `return None`, or an exception.
pub data Outcome {ℓ} (A : Type ℓ) : Type ℓ where
  done : A → Outcome A
  declined raised : Outcome A

-- The sizes of the slices laid end to end.
abbrev pub sum : List ℕ → ℕ
sum [] = 0
sum (w ∷ ws) = w + sum ws

module _ {S : Type 0} where
  -- sc = scales[i] if scales.numel() > 1 else scales.reshape(-1)[0]
  unfoldable pub scale_for : List S → ℕ → Option S
  scale_for scales i = if ltb 1 (length scales) then get_elem? scales i else get_elem? scales 0

  -- out[lo:hi] = v
  unfoldable pub fill : S → ℕ → ℕ → (ℕ → S) → ℕ → S
  fill v lo hi out t = if leb lo t && ltb t hi then v else out t

module _ {S : Type 0} (times256 : S → S) where
  -- One round: a missing scale raises, a slice off the 32-row grid declines.
  unfoldable pub tile_round : Option S → ℕ → ℕ → (ℕ → S) → Outcome (ℕ → S)
  tile_round none off wd out = raised
  tile_round (some sc) off wd out =
      if off % 32 == 0 && wd % 32 == 0
      then done (fill (times256 sc) (off / 32) ((off + wd) / 32) out)
      else declined

  -- The loop over `enumerate(widths)`, from slice `i` at row `off`, with the final `off`.
  unfoldable pub tile_loop : List S → (i off : ℕ) → List ℕ → (ℕ → S) → Outcome (ℕ × (ℕ → S))
  tile_loop scales i off [] out = done (off, out)
  tile_loop scales i off (wd ∷ ws) out = elim (tile_round (scale_for scales i) off wd out) [
    | done out' ↦ tile_loop scales (i + 1) (off + wd) ws out'
    | declined ↦ declined
    | raised ↦ raised
  ]

  -- return out if off == n else None
  unfoldable pub finish : ℕ → Outcome (ℕ × (ℕ → S)) → Outcome (ℕ → S)
  finish n (done (off, out)) = if off == n then done out else declined
  finish n declined = declined
  finish n raised = raised

  unfoldable pub tile_scales : List ℕ → List S → ℕ → (ℕ → S) → Outcome (ℕ → S)
  tile_scales widths scales n out₀ = finish n (tile_loop scales 0 0 widths out₀)

module _ {S : Type 0} where
  -- The scale of the slice that holds row `r`, the slices laid end to end from slice `i` on.
  unfoldable pub slice_scale : (ℕ → Option S) → ℕ → List ℕ → ℕ → Option S
  slice_scale pick i [] r = none
  slice_scale pick i (wd ∷ ws) r = if ltb r wd then pick i else slice_scale pick (i + 1) ws (r - wd)

  -- The scale that `_sm70_fp8_reference_linear` takes for row `r`.
  unfoldable pub row_scale : (List S → S) → List ℕ → List S → ℕ → Option S
  row_scale max_of widths scales r =
      if ltb 1 (length scales) && length widths == length scales
      then slice_scale (get_elem? scales) 0 widths r
      else if ltb 0 (length scales)
      then some (max_of scales)
      else none

abbrev pub converted : {S H : Type 0} → (S → H) → Option S → Option H
converted cast none = none
converted cast (some s) = some (cast s)

-- The factor of row `r` in `_sm70_fp8_reference_linear`; `none` where it is not multiplied. `cast` is
-- `.to(x.dtype)`.
unfoldable pub reference_scale :
    {S H : Type 0} → (S → H) → (List S → S) → List ℕ → List S → ℕ → Option H
unfolding row_scale
reference_scale cast max_of widths scales r = converted cast (row_scale max_of widths scales r)
