-- ===== src/Qpn8/Examples.antt =====
-- The theorems on the FP8 path at concrete inputs: a layer of 64 rows and 128 columns.
use v100_skinny_unify.Prelude.{
  ℕ, ◌*◌, ◌/◌, ◌%◌, ◌≡◌, ◌⊎◌, refl, inl, true, false, List, [], ◌∷◌, some, arith,
}
use v100_skinny_unify.Tensor.{Buf}
use v100_skinny_unify.Qpn8.Pack.{unpack8}
use v100_skinny_unify.Qpn8.Scales.{
  tile_scales, reference_scale, sum, fill, finish, scale_for, tile_loop, tile_round,
}
use v100_skinny_unify.Qpn8.Scales.Laws.{tile_scales-reference}
use v100_skinny_unify.Qpn8.Dispatch.{defaults8, apply8, layer_cfg}
use v100_skinny_unify.Qpn8.Dispatch.Laws.{IsLaunchable, apply8-IsLaunchable}
use v100_skinny_unify.Qpn8.Load.{Verified, Fp8Layer, Fresh8, process8}
use v100_skinny_unify.Qpn8.Load.Laws.{process8_keeps}

abbrev zeros : Buf
zeros = λ _. 0

abbrev weight : Buf
weight = λ i. i % 256

-- Scales in units of 2⁻⁸.
abbrev times256 : ℕ → ℕ
times256 s = s * 256

-- A type of half as many steps.
abbrev halved : ℕ → ℕ
halved s = s / 2

abbrev largest : List ℕ → ℕ
largest [] = 0
largest (s ∷ ss) = s

abbrev two_slices : List ℕ
two_slices = 64 ∷ 32 ∷ []

abbrev two_scales : List ℕ
two_scales = 3 ∷ 7 ∷ []

tile_scales-reference_example :
    (sum two_slices ≡ 96)
    × ((s : ℕ) × (reference_scale halved largest two_slices two_scales 70 ≡ some (halved s))
        × (1792 ≡ times256 s))
unfolding tile_scales finish tile_loop tile_round scale_for fill
tile_scales-reference_example =
    tile_scales-reference times256 halved largest two_slices two_scales 96 70 zeros (inl refl)
      (λ s. refl) refl (omega arith)

apply8-IsLaunchable_example : IsLaunchable 128 30 (apply8 defaults8 64 128 30 (layer_cfg 64 128))
apply8-IsLaunchable_example = apply8-IsLaunchable defaults8 64 128 30 refl

abbrev fresh : Fresh8 ℕ
fresh = record { packed = zeros; unpacked = zeros; tscale = zeros }

abbrev unseen : Verified
unseen = record { shapes = []; eligible = 0 }

abbrev loaded : Fp8Layer ℕ
loaded = record {
  n = 64;
  k = 128;
  weight = record { numel = 8192; at = weight };
  widths = 32 ∷ 32 ∷ [];
  scales = 3 ∷ 7 ∷ [];
  qpn8_ok = false;
  codes = record { numel = 0; at = zeros };
  tscale = zeros;
  cfg = (0, 0);
}

process8_keeps_example :
    let l' = (process8 times256 defaults8 fresh unseen loaded).0 in
    ((l'.qpn8_ok ≡ true)
      × (l'.weight.numel ≡ 0)
      × (unpack8 64 128 l'.codes.at zeros 5000 ≡ weight 5000))
    ⊎ ((l'.qpn8_ok ≡ false) × (l'.weight ≡ loaded.weight))
process8_keeps_example =
    process8_keeps times256 defaults8 fresh unseen loaded zeros 5000 (omega arith)
