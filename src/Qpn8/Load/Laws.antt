-- ===== src/Qpn8/Load/Laws.antt =====
-- The check of the packing never fails, and no weight is released before it is packed.
use v100_skinny_unify.Prelude.{
  ℕ, ◌*◌, ◌/◌, ◌%◌, ◌<◌, ◌≡◌, refl, ap₂, ◌∙◌, true, false, arith, ◌⊎◌, inl, inr, ◌==◌, ==_iff,
  every_under_of,
}
use v100_skinny_unify.Tensor.{Buf}
use v100_skinny_unify.Qpn8.Pack.{prepack8, unpack8}
use v100_skinny_unify.Qpn8.Pack.RoundTrip.{unpack8-prepack8}
use v100_skinny_unify.Qpn8.Scales.{Outcome, done, declined, raised, tile_scales}
use v100_skinny_unify.Qpn8.Dispatch.{Env8}
use v100_skinny_unify.Qpn8.Load.{
  Verified, equal, Fp8Layer, Fresh8, pack_layer, verify, commit, after_scales, stash8, settle,
  process8,
}

-- Buffers that agree on their elements are equal tensors.
equal_of_agree : (size : ℕ) (a b : Buf) → ((i : ℕ) → i < size → a i ≡ b i) → equal size a b ≡ true
unfolding equal
equal_of_agree size a b h =
    every_under_of size (λ i. a i == b i) (λ i lt. (==_iff (a i) (b i)).1 (h i lt))

regroup8 : (a b : ℕ) → a * b * 32 * 16 ≡ a * 32 * (b * 16)
regroup8 a b = omega arith

module _ {S : Type 0} (times256 : S → S) (e : Env8) (fresh : Fresh8 S) where
  pub verify_passes :
      (l : Fp8Layer S) → l.n % 32 ≡ 0 → l.k % 64 ≡ 0 → verify times256 e fresh l ≡ true
  unfolding verify pack_layer
  verify_passes l rows columns =
      let row : l.n / 32 * 32 ≡ l.n = omega arith in
      let column : l.k / 16 * 16 ≡ l.k = omega (arith, columns) in
      let size = regroup8 (l.n / 32) (l.k / 16) ∙ ap₂ (λ x y. x * y) row column in
      let same =
        equal_of_agree (l.n * l.k)
          (unpack8 l.n l.k (prepack8 l.n l.k l.weight.at fresh.packed) fresh.unpacked) l.weight.at
          (λ i lt.
            unpack8-prepack8 l.n l.k l.weight.at fresh.packed fresh.unpacked i rows
              (omega (arith, columns)) lt) in
      rw same (ground arith)

  -- The load-time check of the packing never fails: if the stash raises, a scale was missing.
  pub stash8_raises :
      (v : Verified) (l : Fp8Layer S)
      → stash8 times256 e fresh v l ≡ raised
      → tile_scales times256 l.widths l.scales l.n fresh.tscale ≡ raised
  unfolding stash8 after_scales
  stash8_raises v l h = ground (arith, verify_passes l)

  record Stashed (l : Fp8Layer S) (l' : Fp8Layer S) : Type 0 where
    rows : l.n % 32 ≡ 0
    columns : l.k % 64 ≡ 0
    released : l'.weight.numel ≡ 0
    packed : l'.codes ≡ pack_layer times256 e fresh l

  stash8-Stashed :
      (v : Verified) (l : Fp8Layer S) {l' : Fp8Layer S} {v' : Verified}
      → stash8 times256 e fresh v l ≡ done (l', v')
      → Stashed l l'
  unfolding stash8 after_scales commit
  stash8-Stashed v l h = ground arith

  -- What a processed layer holds: an eligible layer has released its weight, and its packed buffer
  -- unpacks to every byte of it; any other layer keeps its weight.
  pub process8_keeps :
      (v : Verified) (l : Fp8Layer S) (out₀ : Buf) (a : ℕ)
      → a < l.n * l.k
      → let l' = (process8 times256 e fresh v l).0 in
        ((l'.qpn8_ok ≡ true)
          × (l'.weight.numel ≡ 0)
          × (unpack8 l.n l.k l'.codes.at out₀ a ≡ l.weight.at a))
        ⊎ ((l'.qpn8_ok ≡ false) × (l'.weight ≡ l.weight))
  unfolding process8 settle pack_layer
  process8_keeps v l out₀ a h = go (stash8 times256 e fresh v l) refl
    where
      go :
          (o : Outcome (Fp8Layer S × Verified))
          → stash8 times256 e fresh v l ≡ o
          → let l' = (settle times256 e fresh o v l).0 in
            ((l'.qpn8_ok ≡ true)
              × (l'.weight.numel ≡ 0)
              × (unpack8 l.n l.k l'.codes.at out₀ a ≡ l.weight.at a))
            ⊎ ((l'.qpn8_ok ≡ false) × (l'.weight ≡ l.weight))
      go (done (l', v')) q =
          let s = stash8-Stashed v l q in
          inl (
            refl,
            s.released,
            rw s.packed (
                unpack8-prepack8 l.n l.k l.weight.at fresh.packed out₀ a s.rows
                  (omega (arith, s.columns)) h),
          )
      go declined q = inr (refl, refl)
      go raised q = inr (refl, refl)
