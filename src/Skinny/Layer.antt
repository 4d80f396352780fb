-- ===== src/Skinny/Layer.antt =====
-- The copies of a layer's weight from loading on: `_qpn_stash`, `_skip_marlin_build`,
-- `process_weights_after_loading` and `_stashing_prepare` of fork_patches/marlin.py. A tensor is its
-- number of elements and its storage. The global scale, a float that is copied, is left out.
pub mod Copies
use v100_skinny_unify.Prelude.{
  ℕ, ◌*◌, ◌/◌, Bool, true, false, Option, none, some, ltb, ◌&&◌, not, if◌then◌else◌,
}
use v100_skinny_unify.Tensor.{Buf, Tensor, empty}
use v100_skinny_unify.Skinny.Env.{Env}
use v100_skinny_unify.Skinny.Prepack.{prepack}
use v100_skinny_unify.Skinny.Route.{Call, DType}

-- skinny_codes, skinny_scales, skinny_qpn_codes, skinny_qpn_scales
pub record Stash : Type 0 where
  pub codes : Tensor
  pub scales : Tensor
  pub qpn_codes : Tensor
  pub qpn_scales : Tensor

-- `stash` is `none` while the layer has no attribute `skinny_codes`.
pub record Layer : Type 0 where
  pub n : ℕ
  pub k2 : ℕ
  pub weight : Tensor
  pub weight_scale : Tensor
  pub weight_is_uint8 : Bool
  pub has_workspace : Bool
  pub stash : Option Stash

-- What `torch.empty` leaves in the packed buffers.
pub record Fresh : Type 0 where
  pub codes : Buf
  pub scales : Buf

abbrev pub qpn_pair : Option (Tensor × Tensor) → Tensor × Tensor
qpn_pair none = (empty, empty)
qpn_pair (some p) = p

-- `if _QPN_DROP_CT and qc is not None`
abbrev pub drop_ct : Bool → Option (Tensor × Tensor) → Tensor → Tensor
drop_ct true (some p) t = empty
drop_ct _ _ t = t

-- `_qpn_prepack`, if it is enabled.
abbrev pub packed_of : Env → Fresh → Layer → Option (Tensor × Tensor)
packed_of e fresh l =
    if e.qpn_enabled
    then prepack l.n l.k2 l.weight.at l.weight_scale.at fresh.codes fresh.scales
    else none

unfoldable pub qpn_stash : Env → Fresh → Layer → Layer
qpn_stash e fresh l =
    let packed = packed_of e fresh l in
    record l {
      stash = some (record {
        codes = drop_ct e.qpn_drop_ct packed l.weight;
        scales = drop_ct e.qpn_drop_ct packed l.weight_scale;
        qpn_codes = (qpn_pair packed).0;
        qpn_scales = (qpn_pair packed).1;
      });
    }

unfoldable pub skip_marlin_build : Layer → Layer
skip_marlin_build l = record l { weight = empty; weight_scale = empty; has_workspace = true }

abbrev pub qpn_resident : Option Stash → Bool
qpn_resident none = false
qpn_resident (some s) = ltb 0 s.qpn_codes.numel

abbrev pub has_stash : Option Stash → Bool
has_stash none = false
has_stash (some s) = true

-- `prepare_fp4_layer_for_marlin` of the vLLM package is a parameter: it repacks the weight.
module _ (e : Env) (fresh : Fresh) (orig_prepare : Layer → Layer) where
  -- The first `if` of `_stashing_prepare`.
  unfoldable pub stash_once : Layer → Layer
  stash_once l = if not (has_stash l.stash) && l.weight_is_uint8 then qpn_stash e fresh l else l

  -- `_stashing_prepare`, after the class of the W4A16 scheme has been patched.
  unfoldable pub stashing_prepare : Layer → Layer
  stashing_prepare l =
      let l' = stash_once l in
      if e.skinny_unify && qpn_resident l'.stash then skip_marlin_build l' else orig_prepare l'

  -- The name `prepare_fp4_layer_for_marlin` of the module, which is rebound where the path is on.
  unfoldable pub prepare : Layer → Layer
  prepare l = if e.skinny_enabled then stashing_prepare l else orig_prepare l

  unfoldable pub process_weights_after_loading : Layer → Layer
  process_weights_after_loading l =
      if e.skinny_enabled
      then (let l' = qpn_stash e fresh l in
          if e.skinny_unify && qpn_resident l'.stash then skip_marlin_build l' else prepare l')
      else prepare l

abbrev pub numel_or_zero : (Stash → Tensor) → Option Stash → ℕ
numel_or_zero f none = 0
numel_or_zero f (some s) = (f s).numel

-- The arguments with which the layer calls the operator, for `m` rows.
abbrev pub call_of : Layer → ℕ → DType → Bool → Bool → Call
call_of l m dtype capturing ok =
    let numel_of = λ (f : Stash → Tensor). numel_or_zero f l.stash in
    record {
      m = m;
      n = l.n;
      k = l.k2 * 2;
      codes_numel = numel_of (λ s. s.codes);
      qpn_numel = numel_of (λ s. s.qpn_codes);
      marlin_numel = l.weight.numel;
      dtype = dtype;
      capturing = capturing;
      skinny_ok = ok;
    }
