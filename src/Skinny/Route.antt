-- ===== src/Skinny/Route.antt =====
-- `_skinny_linear` of fork_patches/marlin.py: which kernel serves a call, and the name under which
-- the route map logs it. The kernels are not under this repository's Python: a call of one is a
-- value of `Kernel`, with the launch arguments that the dispatch chooses.
pub mod Naming
pub mod Resident
pub mod Launch
pub mod Bands
use v100_skinny_unify.Prelude.{
  ℕ, ◌*◌, ◌%◌, ◌≤◌, Bool, true, false, not, Option, none, some, ltb, leb, ◌==◌, ◌&&◌, ◌||◌,
  if◌then◌else◌,
}
use v100_skinny_unify.Skinny.Env.{Env}
use v100_skinny_unify.Skinny.Config.{Geometry, MtGeometry, qpn2_cfg, mt_geometry}

pub data DType : Type 0 where
  float16 bfloat16 float32 : DType

abbrev pub is_float16 : DType → Bool
is_float16 float16 = true
is_float16 _ = false

-- The arguments of a call that the dispatch reads: the shapes, which weight copies are resident,
-- whether a graph is being captured (`_capturing`), and the global `_skinny_ok`.
pub record Call : Type 0 where
  pub m : ℕ
  pub n : ℕ
  pub k : ℕ
  pub codes_numel : ℕ
  pub qpn_numel : ℕ
  pub marlin_numel : ℕ
  pub dtype : DType
  pub capturing : Bool
  pub skinny_ok : Bool

pub data Kernel : Type 0 where
  gemm_qpn2 : Geometry → Kernel
  gemm_qpn2_mtt : MtGeometry → Kernel
  gemm_qpn gemm_qpn_simt gemm_simt gemm_wmma unprepack_wmma dense marlin : Kernel

pub data Route : Type 0 where
  qpn2 qpn2mt qpn qpn1 simt wmma recon wmma_recon marlin : Route

-- The local variables of the dispatch.
pub record Plan : Type 0 where
  pub qpn2 : Option Geometry
  pub mt : Option MtGeometry
  pub use_qpn : Bool
  pub use_qpn1 : Bool
  pub use_simt : Bool
  pub use_wmma : Bool
  pub use_reconstruct : Bool
  pub use_dense : Bool
  pub u_wmma_ok : Bool
  pub unify_dense : Bool

abbrev pub is_some {ℓ} : {A : Type ℓ} → Option A → Bool
is_some none = false
is_some (some a) = true

module _ (e : Env) (c : Call) where
  unfoldable pub has_ct : Bool
  has_ct = ltb 0 c.codes_numel

  unfoldable pub has_qpn : Bool
  has_qpn = ltb 0 c.qpn_numel

  -- k % 64 == 0 and n % 32 == 0
  unfoldable pub tiled : Bool
  tiled = c.k % 64 == 0 && c.n % 32 == 0

  unfoldable pub within : ℕ → ℕ → Bool
  within lo hi = leb lo c.m && leb c.m hi

  unfoldable pub plan_qpn2 : Option Geometry
  plan_qpn2 = if e.qpn2_enabled && has_qpn && within 1 8 && tiled then qpn2_cfg c.k c.n else none

  abbrev pub to_mt : Option Geometry → Option MtGeometry
  to_mt none = none
  to_mt (some g) = some (mt_geometry c.m g)

  unfoldable pub plan_mt : Option MtGeometry
  plan_mt =
      if e.qpn2_mt_enabled && has_qpn && within 9 32 && tiled
      then to_mt (qpn2_cfg c.k c.n)
      else none

  unfoldable pub plan_qpn : Bool
  plan_qpn = has_qpn && within 4 16 && tiled

  unfoldable pub plan_qpn1 : Bool
  plan_qpn1 = not has_ct && has_qpn && within 1 3 && tiled

  unfoldable pub plan_simt : Bool
  plan_simt = has_ct && not plan_qpn && within 1 7 && c.k % 128 == 0 && c.n % 8 == 0

  unfoldable pub plan_wmma : Bool
  plan_wmma =
      has_ct
      && not plan_qpn
      && not plan_simt
      && leb c.m e.skinny_max_m
      && c.k % 128 == 0
      && c.n % 64 == 0

  unfoldable pub plan_reconstruct : Bool
  plan_reconstruct =
      c.marlin_numel == 0
      && has_qpn
      && not
          (is_some plan_qpn2 || is_some plan_mt || plan_qpn || plan_qpn1 || plan_simt || plan_wmma)

  -- (n * k * 2) <= _RECON_MAX_BYTES
  unfoldable pub transient_fits : Bool
  transient_fits = leb (c.n * c.k * 2) e.recon_max_bytes

  -- x.dtype == torch.float16 and n % 32 == 0 and k % 16 == 0 and not _capturing()
  unfoldable pub dense_ok : Bool
  dense_ok = is_float16 c.dtype && c.n % 32 == 0 && c.k % 16 == 0 && not c.capturing

  unfoldable pub plan_dense : Bool
  plan_dense =
      ltb 0 c.marlin_numel && has_qpn && leb e.recon_min_m c.m && dense_ok && transient_fits

  unfoldable pub wmma_ok : Bool
  wmma_ok = c.skinny_ok && c.k % 256 == 0 && c.n % 64 == 0

  unfoldable pub plan_unify_dense : Bool
  plan_unify_dense =
      plan_reconstruct && dense_ok && (not wmma_ok || leb e.unify_dense_min_m c.m && transient_fits)

  unfoldable pub plan : Plan
  plan = record {
    qpn2 = plan_qpn2;
    mt = plan_mt;
    use_qpn = plan_qpn;
    use_qpn1 = plan_qpn1;
    use_simt = plan_simt;
    use_wmma = plan_wmma;
    use_reconstruct = plan_reconstruct;
    use_dense = plan_dense;
    u_wmma_ok = wmma_ok;
    unify_dense = plan_unify_dense;
  }

-- The conditional expression that names the route.
unfoldable pub route_of : Plan → Route
route_of p =
    if is_some p.qpn2
    then qpn2
    else if is_some p.mt
    then qpn2mt
    else if p.use_qpn
    then qpn
    else if p.use_qpn1
    then qpn1
    else if p.use_simt
    then simt
    else if p.use_wmma
    then wmma
    else if p.use_reconstruct
    then (if p.unify_dense then recon else wmma_recon)
    else if p.use_dense
    then recon
    else marlin

-- The returns below the skinny kernels.
unfoldable pub fallback : Plan → Kernel
fallback p =
    if p.use_reconstruct
    then (if p.u_wmma_ok && not p.unify_dense then unprepack_wmma else dense)
    else if p.use_dense
    then dense
    else marlin

unfoldable pub after_mt : Bool → Plan → Kernel
after_mt skinny_ok p =
    if skinny_ok && p.use_qpn
    then gemm_qpn
    else if skinny_ok && p.use_qpn1
    then gemm_qpn_simt
    else if skinny_ok && (p.use_simt || p.use_wmma)
    then (if p.use_simt then gemm_simt else gemm_wmma)
    else fallback p

unfoldable pub after_qpn2 : Bool → Plan → Option MtGeometry → Kernel
after_qpn2 true p (some g) = gemm_qpn2_mtt g
after_qpn2 skinny_ok p _ = after_mt skinny_ok p

-- The returns of the dispatch, in order.
unfoldable pub kernel_of : Bool → Plan → Option Geometry → Kernel
kernel_of true p (some g) = gemm_qpn2 g
kernel_of skinny_ok p _ = after_qpn2 skinny_ok p p.mt

unfoldable pub route : Env → Call → Route
route e c = route_of (plan e c)

unfoldable pub kernel : Env → Call → Kernel
kernel e c = let p = plan e c in kernel_of c.skinny_ok p p.qpn2

-- The name in the route map of a kernel that runs.
unfoldable pub label : Kernel → Route
label (gemm_qpn2 g) = qpn2
label (gemm_qpn2_mtt g) = qpn2mt
label gemm_qpn = qpn
label gemm_qpn_simt = qpn1
label gemm_simt = simt
label gemm_wmma = wmma
label unprepack_wmma = wmma_recon
label dense = recon
label Kernel.marlin = Route.marlin
