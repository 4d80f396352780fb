-- ===== src/Skinny/LmHead.antt =====
-- The 4-bit lm_head of fork_patches/marlin.py: `_lmhead_load_native`, `_skinny_embed_apply` and
-- `_skinny_embed_pw`. The file of the checkpoint is a record of what its slices give; the
-- requantisation of the layer's own weight (`_lmhead_pack`), which is arithmetic on floats, is a
-- parameter, and the global scale, a float that is copied, is left out.
pub mod Uncached
pub mod Cache
pub mod Rows
pub mod Takes
pub mod Shards
use v100_skinny_unify.Prelude.{
  ℕ, ◌+◌, ◌*◌, ◌/◌, ◌%◌, Bool, true, false, not, Option, none, some, List, [], ◌∷◌, ltb, leb, ◌==◌,
  ◌&&◌, ◌||◌, if◌then◌else◌,
}
use v100_skinny_unify.Prelude.Options.{◌>>=◌}
use v100_skinny_unify.Tensor.{Buf, Tensor}
use v100_skinny_unify.Skinny.Config.{Geometry, qpn2_cfg}
use v100_skinny_unify.Skinny.Prepack.{prepack}
use v100_skinny_unify.Skinny.Layer.{Fresh}
use v100_skinny_unify.Skinny.Route.{DType, is_float16}
use v100_skinny_unify.KvCache.Text.{ends_with, is_among}
use Prim.Native.String.{String}

-- The names in a safetensors file, and by the name of a weight its rows, its codes (k / 2 bytes a
-- row) and the scales beside it (k / 16 a row).
pub record Checkpoint : Type 0 where
  pub keys : List String
  pub rows : String → ℕ
  pub codes : String → Buf
  pub scales : String → Buf

-- [k for k in f.keys() if k.endswith("lm_head.weight")][0]
unfoldable pub first_ending : List String → Option String
first_ending [] = none
first_ending (key ∷ keys) = if ends_with key "lm_head.weight" then some key else first_ending keys

-- _lmk
unfoldable pub weight_key : List String → Option String
unfolding first_ending
weight_key keys =
    if is_among "lm_head.weight" keys then some "lm_head.weight" else first_ending keys

-- f.get_slice(key)[off : off + n], for rows of `width` bytes.
unfoldable pub rows_from : ℕ → ℕ → ℕ → Buf → Tensor
rows_from width off n b = record { numel = n * width; at = λ i. b (off * width + i) }

-- The codes and the scales of the rank's shard, or `none` where the source warns and packs.
unfoldable pub shard_of : ℕ → ℕ → ℕ → Checkpoint → Option (Tensor × Tensor)
shard_of rank n k f =
    let off = rank * n in
    weight_key f.keys >>= λ key.
    if ltb (f.rows key) (off + n)
    then none
    else some (rows_from (k / 2) off n (f.codes key), rows_from (k / 16) off n (f.scales key))

-- The switches, the rank and the file that is found; `native` says that _LMHEAD_NATIVE is set.
pub record HeadEnv : Type 0 where
  pub native : Bool
  pub path : Option Checkpoint
  pub rank : ℕ
  pub qpn_lmhead : Bool
  pub qpn2_enabled : Bool

-- `codes` (skinny_lm_codes and skinny_lm_scales) and `qpn` (skinny_lm_qpn_codes and its scales,
-- which may be None) are `none` while the layer does not have the attribute.
pub record Head (W : Type 0) : Type 0 where
  pub weight : W
  pub shape : Option (List ℕ)
  pub is_parallel_lm_head : Bool
  pub codes : Option (Tensor × Tensor)
  pub qpn : Option (Option (Tensor × Tensor))

-- The rows of x2, the dtype of x, and whether there is a bias.
pub record Hidden : Type 0 where
  pub m : ℕ
  pub dtype : DType
  pub has_bias : Bool

pub data Answer : Type 0 where
  original : Answer
  gemm_qpn2 : Geometry → Tensor × Tensor → Answer
  gemm_simt : Tensor × Tensor → Answer
  gemm_wmma : Tensor × Tensor → Answer

abbrev pub has {ℓ} : {A : Type ℓ} → Option A → Bool
has none = false
has (some a) = true

-- (n, k) of a matrix that passes the tests on its shape.
unfoldable pub head_shape : Option (List ℕ) → Option (ℕ × ℕ)
head_shape (some (n ∷ k ∷ [])) =
    if ltb n 32768 || not (k % 128 == 0) || not (n % 64 == 0) then none else some (n, k)
head_shape _ = none

-- fn = ext.gemm_simt if m <= 7 else ext.gemm_wmma
unfoldable pub ct_kernel : ℕ → Tensor × Tensor → Answer
ct_kernel m p = if leb m 7 then gemm_simt p else gemm_wmma p

module _ {W : Type 0} (e : HeadEnv) (fresh : Fresh) (pack : W → Tensor × Tensor) where
  abbrev pub or_pack : W → Option (Tensor × Tensor) → Tensor × Tensor
  or_pack w none = pack w
  or_pack w (some p) = p

  unfoldable pub load_native : ℕ → ℕ → Head W → Head W
  load_native n k h = record h { codes = some (or_pack h.weight (e.path >>= shard_of e.rank n k)) }

  -- if not hasattr(layer, "skinny_lm_codes")
  unfoldable pub ensure_codes : ℕ → ℕ → Head W → Head W
  ensure_codes n k h =
      if has h.codes
      then h
      else if e.native
      then load_native n k h
      else record h { codes = some (pack h.weight) }

  unfoldable pub lm_cfg : ℕ → ℕ → ℕ → Option Geometry
  lm_cfg m n k =
      if e.qpn_lmhead && e.qpn2_enabled && (leb 1 m && leb m 8) && k % 64 == 0 && n % 32 == 0
      then qpn2_cfg k n
      else none

  -- if not hasattr(layer, "skinny_lm_qpn_codes")
  unfoldable pub ensure_qpn : ℕ → ℕ → Tensor × Tensor → Head W → Head W
  ensure_qpn n k p h =
      if has h.qpn
      then h
      else record h { qpn = some (prepack n (k / 2) p.0.at p.1.at fresh.codes fresh.scales) }

  -- The launch for the packed copy, which the packing may have refused.
  unfoldable pub qpn_launch :
      Geometry → ℕ → Tensor × Tensor → Option (Option (Tensor × Tensor)) → Answer
  qpn_launch g m p (some (some q)) = gemm_qpn2 g q
  qpn_launch g m p _ = ct_kernel m p

  unfoldable pub launch : Option Geometry → ℕ → ℕ → ℕ → Tensor × Tensor → Head W → Head W × Answer
  launch none m n k p h = (h, ct_kernel m p)
  launch (some g) m n k p h = let h' = ensure_qpn n k p h in (h', qpn_launch g m p h'.qpn)

  -- The codes are there once they have been ensured.
  unfoldable pub with_codes : ℕ → ℕ → ℕ → Head W → Option (Tensor × Tensor) → Head W × Answer
  with_codes m n k h none = (h, original)
  with_codes m n k h (some p) = launch (lm_cfg m n k) m n k p h

  unfoldable pub on_shape : Hidden → Head W → Option (ℕ × ℕ) → Head W × Answer
  on_shape x h none = (h, original)
  on_shape x h (some (n, k)) =
      let h' = ensure_codes n k h in
      if not (is_float16 x.dtype) || x.has_bias
      then (h, original)
      else if ltb 64 x.m
      then (h', original)
      else with_codes x.m n k h' h'.codes

  -- _skinny_embed_apply
  unfoldable pub embed_apply : Head W → Hidden → Head W × Answer
  embed_apply h x = on_shape x h (head_shape h.shape)

  abbrev pub on_load : Head W → Option (ℕ × ℕ) → Head W
  on_load h none = h
  on_load h (some (n, k)) = load_native n k h

  -- _skinny_embed_pw, after the original method.
  unfoldable pub embed_pw : Head W → Head W
  embed_pw h =
      if e.native && h.is_parallel_lm_head && not (has h.codes)
      then on_load h (head_shape h.shape)
      else h

  -- The layer after some calls.
  unfoldable pub after_calls : Head W → List Hidden → Head W
  after_calls h [] = h
  after_calls h (x ∷ xs) = after_calls (embed_apply h x).0 xs
