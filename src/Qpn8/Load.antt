-- ===== src/Qpn8/Load.antt =====
-- `_sm70_qpn8_stash` and `_sm70_fp8_process` of fork_patches/modelopt.py: an FP8 layer is packed when
-- it is loaded, the packing is checked once for each shape, and the original weight is released.
pub mod Laws
use v100_skinny_unify.Prelude.{
  ℕ, ◌+◌, ◌*◌, ◌/◌, ◌%◌, Bool, true, false, not, Option, none, some, List, [], ◌∷◌, ◌==◌, ◌&&◌,
  ◌||◌, every_under, if◌then◌else◌,
}
use v100_skinny_unify.Tensor.{Buf, Tensor, empty}
use v100_skinny_unify.Skinny.Config.{Geometry}
use v100_skinny_unify.Qpn8.Pack.{prepack8, unpack8}
use v100_skinny_unify.Qpn8.Scales.{Outcome, done, declined, raised, tile_scales}
use v100_skinny_unify.Qpn8.Dispatch.{Env8, layer_cfg}

-- _sm70_qpn8_verified_shapes and _sm70_qpn8_eligible
pub record Verified : Type 0 where
  pub shapes : List (ℕ × ℕ)
  pub eligible : ℕ

unfoldable pub has_shape : List (ℕ × ℕ) → ℕ → ℕ → Bool
has_shape [] n k = false
has_shape ((a, b) ∷ rest) n k = a == n && b == k || has_shape rest n k

-- torch.equal, on tensors of `size` elements
unfoldable pub equal : ℕ → Buf → Buf → Bool
equal size a b = every_under size (λ i. a i == b i)

pub record Fp8Layer (S : Type 0) : Type 0 where
  pub n : ℕ
  pub k : ℕ
  pub weight : Tensor
  pub widths : List ℕ
  pub scales : List S
  pub qpn8_ok : Bool
  pub codes : Tensor
  pub tscale : ℕ → S
  pub cfg : Geometry

-- What `torch.empty` leaves in the buffers of the packing, of its check and of the scales.
pub record Fresh8 (S : Type 0) : Type 0 where
  pub packed : Buf
  pub unpacked : Buf
  pub tscale : ℕ → S

module _ {S : Type 0} (times256 : S → S) (e : Env8) (fresh : Fresh8 S) where
  -- packed.numel(): the product of the dimensions [tiles][groups][32][16].
  unfoldable pub pack_layer : Fp8Layer S → Tensor
  pack_layer l = record {
    numel = l.n / 32 * (l.k / 16) * 32 * 16;
    at = prepack8 l.n l.k l.weight.at fresh.packed;
  }

  -- The two assertions on a shape that has not been seen.
  unfoldable pub verify : Fp8Layer S → Bool
  verify l =
      let packed = pack_layer l in
      packed.numel == l.n * l.k
      && equal (l.n * l.k) (unpack8 l.n l.k packed.at fresh.unpacked) l.weight.at

  -- The packed buffer becomes the only resident copy.
  unfoldable pub commit : (ℕ → S) → Verified → Fp8Layer S → Fp8Layer S × Verified
  commit ts v l = (
    record l { weight = empty; codes = pack_layer l; tscale = ts; cfg = layer_cfg l.n l.k },
    record {
      shapes = if has_shape v.shapes l.n l.k then v.shapes else (l.n, l.k) ∷ v.shapes;
      eligible = v.eligible + 1;
    },
  )

  unfoldable pub after_scales :
      Outcome (ℕ → S) → Verified → Fp8Layer S → Outcome (Fp8Layer S × Verified)
  after_scales (done ts) v l =
      if has_shape v.shapes l.n l.k || verify l then done (commit ts v l) else raised
  after_scales declined v l = declined
  after_scales raised v l = raised

  -- `declined` is `return False`; a failed assertion raises.
  unfoldable pub stash8 : Verified → Fp8Layer S → Outcome (Fp8Layer S × Verified)
  stash8 v l =
      if not e.qpn8
      then declined
      else if l.n % 32 == 0 && l.k % 64 == 0
      then after_scales (tile_scales times256 l.widths l.scales l.n fresh.tscale) v l
      else declined

  -- The `try` around the stash: no exception gets out of it.
  unfoldable pub settle :
      Outcome (Fp8Layer S × Verified) → Verified → Fp8Layer S → Fp8Layer S × Verified
  settle (done (l', v')) v l = (record l' { qpn8_ok = true }, v')
  settle declined v l = (record l { qpn8_ok = false }, v)
  settle raised v l = (record l { qpn8_ok = false }, v)

  unfoldable pub process8 : Verified → Fp8Layer S → Fp8Layer S × Verified
  process8 v l = settle (stash8 v l) v l
