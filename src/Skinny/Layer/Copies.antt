-- ===== src/Skinny/Layer/Copies.antt =====
-- No copy of a weight is given up before another one holds it.
use v100_skinny_unify.Prelude.{
  ℕ, ◌+◌, ◌*◌, ◌/◌, ◌%◌, ◌<◌, ◌≡◌, refl, ap, ap₂, ◌∙◌, true, Option, none, some, arith, ◌⊎◌, inl,
  inr, ltb,
}
use v100_skinny_unify.Tensor.{Buf, Tensor}
use v100_skinny_unify.Skinny.Env.{Env}
use v100_skinny_unify.Skinny.Prepack.{prepack, unprepack}
use v100_skinny_unify.Skinny.Prepack.Nibbles.{IsBytes}
use v100_skinny_unify.Skinny.Prepack.RoundTrip.{unprepack-prepack}
use v100_skinny_unify.Skinny.Layer.{
  Layer, Stash, Fresh, qpn_pair, packed_of, qpn_stash, skip_marlin_build, qpn_resident, stash_once,
  stashing_prepare, prepare, process_weights_after_loading, numel_or_zero,
}

-- What the code relies on of the repacking for marlin: it leaves the stash alone and does not
-- replace a weight by an empty tensor.
pub record Repacks (orig_prepare : Layer → Layer) : Type 0 where
  pub keeps_stash : (l : Layer) → (orig_prepare l).stash ≡ l.stash
  pub keeps_weight : (l : Layer) → 0 < l.weight.numel → 0 < (orig_prepare l).weight.numel

-- The packed copy of `s` unpacks to the codes and the scales of the layer at the given places.
abbrev pub Recovers : Layer → Buf → Buf → ℕ → ℕ → ℕ → Option Stash → Type 0
Recovers l nib₀ scales₀ i r g none = ⊥
Recovers l nib₀ scales₀ i r g (some s) =
    let (codes, scales) = unprepack l.n (l.k2 * 2) s.qpn_codes.at s.qpn_scales.at nib₀ scales₀ in
    (codes i ≡ l.weight.at i)
    × (scales (r * (l.k2 * 2 / 16) + g) ≡ l.weight_scale.at (r * (l.k2 * 2 / 16) + g))

module _ (e : Env) (fresh : Fresh) (l : Layer) where
  -- A resident packed copy comes from an accepted prepack.
  packed_pair :
      (o : Option (Tensor × Tensor)) → ltb 0 (qpn_pair o).0.numel ≡ true → o ≡ some (qpn_pair o)
  packed_pair none h = ground arith
  packed_pair (some p) h = refl

  enabled_prepack :
      {p : Tensor × Tensor}
      → packed_of e fresh l ≡ some p
      → prepack l.n l.k2 l.weight.at l.weight_scale.at fresh.codes fresh.scales ≡ some p
  enabled_prepack h = ground arith

  qpn_stash-Recovers :
      (nib₀ scales₀ : Buf) (i r g : ℕ)
      → IsBytes l.weight.at
      → qpn_resident (qpn_stash e fresh l).stash ≡ true
      → i < l.n * l.k2
      → r < l.n
      → g < l.k2 * 2 / 16
      → Recovers l nib₀ scales₀ i r g (qpn_stash e fresh l).stash
  unfolding qpn_stash
  qpn_stash-Recovers nib₀ scales₀ i r g bytes resident hi hr hg =
      unprepack-prepack l.n l.k2 l.weight.at l.weight_scale.at fresh.codes fresh.scales nib₀ scales₀
        bytes (enabled_prepack (packed_pair (packed_of e fresh l) resident)) i r g hi hr hg

regroup_codes : (a b : ℕ) → a * b * 32 * 8 ≡ a * 32 * (b * 8)
regroup_codes a b = omega arith

regroup_scales : (a b : ℕ) → a * b * 32 ≡ a * 32 * b
regroup_scales a b = omega arith

packed_size :
    (n k2 : ℕ)
    → n % 32 ≡ 0
    → k2 * 2 % 64 ≡ 0
    → (n / 32 * (k2 * 2 / 16) * 32 * 8 ≡ n * k2) × (n / 32 * (k2 * 2 / 16) * 32 ≡ n * (k2 * 2 / 16))
packed_size n k2 rows columns =
    let row : n / 32 * 32 ≡ n = omega arith in
    let column : k2 * 2 / 16 * 8 ≡ k2 = omega (arith, columns) in
    (
      regroup_codes (n / 32) (k2 * 2 / 16) ∙ ap₂ (λ a b. a * b) row column,
      regroup_scales (n / 32) (k2 * 2 / 16) ∙ ap (λ a. a * (k2 * 2 / 16)) row,
    )

module _ (e : Env) (fresh : Fresh) (orig_prepare : Layer → Layer) (l : Layer) where
  -- With the path on, loading ends in one of two ways.
  process_cases :
      e.skinny_enabled ≡ true
      → let l' = qpn_stash e fresh l in
        ((process_weights_after_loading e fresh orig_prepare l ≡ skip_marlin_build l')
          × (qpn_resident l'.stash ≡ true))
        ⊎ (process_weights_after_loading e fresh orig_prepare l ≡ orig_prepare l')
  unfolding process_weights_after_loading prepare stashing_prepare stash_once qpn_stash
  process_cases on = ground arith

  -- Loading loses no weight: where the path is on, a layer whose weight is bytes and not empty
  -- still has a weight for the marlin kernel when it is processed, or its packed copy unpacks to
  -- the codes and the scales of the checkpoint. The repacking for marlin is taken to leave the
  -- stash alone and to keep a weight that is not empty.
  pub process-Recovers :
      (nib₀ scales₀ : Buf) (i r g : ℕ)
      → Repacks orig_prepare
      → e.skinny_enabled ≡ true
      → IsBytes l.weight.at
      → 0 < l.weight.numel
      → i < l.n * l.k2
      → r < l.n
      → g < l.k2 * 2 / 16
      → (0 < (process_weights_after_loading e fresh orig_prepare l).weight.numel)
        ⊎ Recovers l nib₀ scales₀ i r g (process_weights_after_loading e fresh orig_prepare l).stash
  unfolding qpn_stash skip_marlin_build
  process-Recovers nib₀ scales₀ i r g spec on bytes full hi hr hg = elim (process_cases on) [
    | inl (skipped, resident) ↦
        inr (rw skipped (qpn_stash-Recovers e fresh l nib₀ scales₀ i r g bytes resident hi hr hg))
    | inr kept ↦ inl (rw kept (spec.keeps_weight (qpn_stash e fresh l) full))
  ]

  -- With UNIFY and DROP_CT a layer whose shape the packing accepts keeps one copy of its weight,
  -- of the size that the checkpoint's had: no marlin weight, no checkpoint-native codes or scales,
  -- n * k / 2 bytes of packed codes and n * k / 16 packed scales.
  pub process_footprint :
      e.skinny_enabled ≡ true
      → e.qpn_enabled ≡ true
      → e.skinny_unify ≡ true
      → e.qpn_drop_ct ≡ true
      → l.n % 32 ≡ 0
      → l.k2 * 2 % 64 ≡ 0
      → 0 < l.n
      → 0 < l.k2
      → let l' = process_weights_after_loading e fresh orig_prepare l in
        (l'.weight.numel ≡ 0)
        × (numel_or_zero (λ s. s.codes) l'.stash ≡ 0)
        × (numel_or_zero (λ s. s.scales) l'.stash ≡ 0)
        × (numel_or_zero (λ s. s.qpn_codes) l'.stash ≡ l.n * l.k2)
        × (numel_or_zero (λ s. s.qpn_scales) l'.stash ≡ l.n * (l.k2 * 2 / 16))
  unfolding process_weights_after_loading qpn_stash skip_marlin_build prepack
  process_footprint on qpn unify drop rows columns n_pos k_pos =
      let pos : 0 < l.n * l.k2 = grind arith in ground (arith, packed_size l.n l.k2 rows columns)
