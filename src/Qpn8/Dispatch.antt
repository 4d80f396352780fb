-- ===== src/Qpn8/Dispatch.antt =====
-- The FP8 operator of fork_patches/modelopt.py: `_sm70_qpn8_linear`, `_sm70_qpn8_prefill` and
-- `_sm70_fp8_apply`. A launch of an extension's kernel is a value of `Launch`.
pub mod Laws
pub mod Chunks
use v100_skinny_unify.Prelude.{
  ℕ, zero, suc, ◌+◌, ◌-◌, ◌/◌, ◌%◌, min, Bool, true, false, Option, none, some, List, [], ◌∷◌, ◌++◌,
  ltb, leb, ◌==◌, ◌&&◌, if◌then◌else◌,
}
use v100_skinny_unify.Prelude.Lists.{length, take, drop}
use v100_skinny_unify.Skinny.Config.{Geometry, Row, table_get, row_tiles, split_cap}

-- The switches, and what the loaded extension has (`hasattr(ext, …)`).
pub record Env8 : Type 0 where
  pub qpn8 : Bool
  pub twoop : Bool
  pub chunk_max : ℕ
  pub mt2 : Bool
  pub mtt : Bool
  pub ext_mt2 : Bool
  pub ext_mtt : Bool

-- The values with no variable set, and an extension built from the current source.
abbrev pub defaults8 : Env8
defaults8 = record {
  qpn8 = true;
  twoop = false;
  chunk_max = 96;
  mt2 = true;
  mtt = true;
  ext_mt2 = true;
  ext_mtt = true;
}

pub data Launch : Type 0 where
  native : Geometry → Launch
  mtt : (splitk nacc mt t : ℕ) → Launch
  mt2 : Geometry → Launch
  chunked : Geometry → Launch
  reconstruct : Launch

pub data Route8 : Type 0 where
  qpn8 qpn8_mtt qpn8_mt2 qpn8_chunked qpn8_prefill : Route8

-- Rows of this table are (n, k) in the source.
abbrev pub mt2_table : List Row
mt2_table =
    record { n = 4096; k = 5120; splitk = 16; nacc = 3 }
    ∷ record { n = 5120; k = 1536; splitk = 16; nacc = 3 }
    ∷ record { n = 3584; k = 5120; splitk = 16; nacc = 3 }
    ∷ []

abbrev pub qpn8_table : List Row
qpn8_table =
    record { n = 4096; k = 5120; splitk = 16; nacc = 2 }
    ∷ record { n = 5120; k = 1536; splitk = 8; nacc = 2 }
    ∷ record { n = 3584; k = 5120; splitk = 16; nacc = 2 }
    ∷ []

-- table.get(key, default)
unfoldable pub get_default : Option Geometry → Geometry → Geometry
get_default none d = d
get_default (some g) d = g

unfoldable pub mtt_ok : Env8 → Bool
mtt_ok e = e.mtt && e.ext_mtt

unfoldable pub mt2_ok : Env8 → Bool
mt2_ok e = e.mt2 && e.ext_mt2

-- _rt
unfoldable pub route8 : Env8 → ℕ → Route8
route8 e m =
    if leb m 8
    then qpn8
    else if mtt_ok e && leb m 32
    then qpn8_mtt
    else if leb m 16
    then (if mt2_ok e then qpn8_mt2 else qpn8_chunked)
    else if leb m e.chunk_max
    then qpn8_chunked
    else qpn8_prefill

-- int(nacc) if int(nacc) >= 3 else int(nacc) + 2
unfoldable pub fast_nacc : ℕ → ℕ
fast_nacc a = if leb 3 a then a else a + 2

unfoldable pub mtt_launch : ℕ → Geometry → Launch
mtt_launch m (s, a) = let mt = row_tiles m in Launch.mtt (min s (split_cap mt)) (fast_nacc a) mt 2

-- The returns of `_sm70_qpn8_linear`, for a layer of shape (n, k) and its configuration.
unfoldable pub launch8 : Env8 → (n k m : ℕ) → Geometry → Launch
launch8 e n k m g =
    if leb m 8
    then native g
    else if leb m 32 && mtt_ok e
    then mtt_launch m g
    else if leb m 16 && mt2_ok e
    then Launch.mt2 (get_default (table_get mt2_table k n) g)
    else if leb m e.chunk_max
    then chunked g
    else reconstruct

-- The operator that `_sm70_fp8_apply` calls for an eligible layer; the two-operator form sends
-- more than 16 rows to `_sm70_qpn8_prefill`.
unfoldable pub apply8 : Env8 → (n k m : ℕ) → Geometry → Launch
apply8 e n k m g =
    if e.twoop then (if leb m 16 then launch8 e n k m g else reconstruct) else launch8 e n k m g

-- The name in the census of a launch that runs.
unfoldable pub label8 : Launch → Route8
label8 (native g) = qpn8
label8 (Launch.mtt s a mt t) = qpn8_mtt
label8 (Launch.mt2 g) = qpn8_mt2
label8 (chunked g) = qpn8_chunked
label8 reconstruct = qpn8_prefill

-- layer._qpn8_cfg, after the check at the end of `_sm70_qpn8_stash`.
unfoldable pub layer_cfg : (n k : ℕ) → Geometry
layer_cfg n k =
    let g = get_default (table_get qpn8_table k n) (16, 2) in
    if k / 16 % g.0 == 0 then g else if k / 16 % 8 == 0 then (8, 2) else (4, 1)

-- [gemm(x[i:i + 8]) for i in range(0, m, 8)], concatenated; `fuel` counts the rounds.
unfoldable pub chunk_rows : {X Y : Type 0} → (List X → List Y) → ℕ → List X → List Y
chunk_rows gemm zero xs = []
chunk_rows gemm (suc fuel) xs = gemm (take 8 xs) ++ chunk_rows gemm fuel (drop 8 xs)

unfoldable pub run_chunked : {X Y : Type 0} → (List X → List Y) → List X → List Y
run_chunked gemm xs = chunk_rows gemm ((length xs + 7) / 8) xs
