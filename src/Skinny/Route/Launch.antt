-- ===== src/Skinny/Route/Launch.antt =====
-- What the dispatch ensures for the kernel it chooses: the copy of the weight that it reads is
-- resident, the rows are in its band, and the shape and the launch geometry pass its tests.
use v100_skinny_unify.Prelude.{
  ℕ, ◌*◌, ◌/◌, ◌%◌, ◌≤◌, ◌<◌, ◌≡◌, refl, sym, true, false, Option, none, some, arith, ◌⊎◌, inl, inr,
  Bool-cases,
}
use mathlib.Core.Path.{subst}
use v100_skinny_unify.Skinny.Env.{Env}
use v100_skinny_unify.Skinny.Config.{Geometry, MtGeometry, qpn2_cfg, mt_geometry}
use v100_skinny_unify.Skinny.Config.Laws.{IsGeometry, qpn2_cfg-IsGeometry, mt_geometry-IsMtLaunch}
use v100_skinny_unify.Skinny.Route.{
  Call, Kernel, Plan, gemm_qpn2, gemm_qpn2_mtt, gemm_qpn, gemm_qpn_simt, gemm_simt, gemm_wmma,
  unprepack_wmma, dense, marlin, has_ct, has_qpn, tiled, within, to_mt, plan_qpn2, plan_mt,
  plan_qpn, plan_qpn1, plan_simt, plan_wmma, plan_reconstruct, plan_dense, plan_unify_dense,
  transient_fits, dense_ok, wmma_ok, float16, is_float16, DType, bfloat16, float32, plan, fallback,
  after_mt, after_qpn2, kernel_of, kernel,
}

abbrev pub IsTiled : Call → Type 0
IsTiled c = (c.k % 64 ≡ 0) × (c.n % 32 ≡ 0)

abbrev pub InBand : ℕ → ℕ → Call → Type 0
InBand lo hi c = (lo ≤ c.m) × (c.m ≤ hi)

-- What the call that reconstructs the weight asks for beside a marlin copy, and where it prefers to:
-- a half-precision input, the shape, no capture, and the cap on the transient.
abbrev pub IsDense : Env → Call → Type 0
IsDense e c =
    (c.dtype ≡ float16)
    × (c.n % 32 ≡ 0)
    × (c.k % 16 ≡ 0)
    × (c.capturing ≡ false)
    × (c.n * c.k * 2 ≤ e.recon_max_bytes)

-- The wmma kernel does not take the shape of an unpacked weight.
abbrev pub WmmaRefuses : Call → Type 0
WmmaRefuses c = (0 < c.k % 256) ⊎ (0 < c.n % 64)

abbrev pub IsServed : Env → Call → Kernel → Type 0
IsServed e c (gemm_qpn2 g) = (0 < c.qpn_numel) × InBand 1 8 c × IsTiled c × IsGeometry c.k g
IsServed e c (gemm_qpn2_mtt g) =
    (0 < c.qpn_numel)
    × InBand 9 32 c
    × IsTiled c
    × (c.k / 16 % g.splitk ≡ 0)
    × (g.splitk * g.t * g.mt ≤ 96)
    × (c.m ≤ 8 * g.mt)
IsServed e c gemm_qpn = (0 < c.qpn_numel) × InBand 4 16 c × IsTiled c
IsServed e c gemm_qpn_simt = (0 < c.qpn_numel) × InBand 1 3 c × IsTiled c
IsServed e c gemm_simt = (0 < c.codes_numel) × InBand 1 7 c × (c.k % 128 ≡ 0) × (c.n % 8 ≡ 0)
IsServed e c gemm_wmma =
    (0 < c.codes_numel) × (c.m ≤ e.skinny_max_m) × (c.k % 128 ≡ 0) × (c.n % 64 ≡ 0)
IsServed e c unprepack_wmma =
    (0 < c.qpn_numel) × (c.marlin_numel ≡ 0) × (c.k % 256 ≡ 0) × (c.n % 64 ≡ 0)
IsServed e c dense =
    (0 < c.qpn_numel)
    × (((0 < c.marlin_numel) × (e.recon_min_m ≤ c.m) × IsDense e c)
        ⊎ ((c.marlin_numel ≡ 0) × (e.unify_dense_min_m ≤ c.m) × IsDense e c)
        ⊎ ((c.marlin_numel ≡ 0) × WmmaRefuses c))
IsServed e c marlin = 0 < c.marlin_numel

after_mt_alone :
    (p : Plan)
    → p.use_qpn ≡ false
    → p.use_qpn1 ≡ false
    → p.use_simt ≡ false
    → p.use_wmma ≡ false
    → after_mt true p ≡ fallback p
unfolding after_mt
after_mt_alone p a b d w = ground arith

pub half_of : (d : DType) → is_float16 d ≡ true → d ≡ float16
half_of float16 h = refl
half_of bfloat16 h = cc
half_of float32 h = cc

module _ (e : Env) (c : Call) where
  plan_qpn2-IsServed : (g : Geometry) → plan_qpn2 e c ≡ some g → IsServed e c (gemm_qpn2 g)
  unfolding plan_qpn2 has_qpn tiled within
  plan_qpn2-IsServed (s, a) h = ground (arith, qpn2_cfg-IsGeometry c.k c.n s a)

  mt_facts :
      (o : Option Geometry) (g : MtGeometry)
      → qpn2_cfg c.k c.n ≡ o
      → c.m ≤ 32
      → to_mt e c o ≡ some g
      → (c.k / 16 % g.splitk ≡ 0) × (g.splitk * g.t * g.mt ≤ 96) × (c.m ≤ 8 * g.mt)
  mt_facts none g h hm q = cc
  mt_facts (some (s, a)) g h hm q =
      let l = mt_geometry-IsMtLaunch c.m c.k c.n s a hm h in
      subst (λ r. (c.k / 16 % r.splitk ≡ 0) × (r.splitk * r.t * r.mt ≤ 96) × (c.m ≤ 8 * r.mt))
        {x = mt_geometry c.m (s, a)} {y = g} (cc) (l.divides, l.staged, l.covers)

  mt_guards :
      (g : MtGeometry)
      → plan_mt e c ≡ some g
      → (0 < c.qpn_numel) × InBand 9 32 c × IsTiled c × (to_mt e c (qpn2_cfg c.k c.n) ≡ some g)
  unfolding plan_mt has_qpn tiled within
  mt_guards g h = ground arith

  plan_mt-IsServed : (g : MtGeometry) → plan_mt e c ≡ some g → IsServed e c (gemm_qpn2_mtt g)
  plan_mt-IsServed g h =
      let (resident, band, shape, chosen) = mt_guards g h in
      let (d, s, r) = mt_facts (qpn2_cfg c.k c.n) g refl band.1 chosen in
      (resident, band, shape, d, s, r)

  plan_qpn-IsServed : plan_qpn e c ≡ true → IsServed e c gemm_qpn
  unfolding plan_qpn has_qpn tiled within
  plan_qpn-IsServed h = ground arith

  plan_qpn1-IsServed : plan_qpn1 e c ≡ true → IsServed e c gemm_qpn_simt
  unfolding plan_qpn1 has_ct has_qpn tiled within
  plan_qpn1-IsServed h = ground arith

  plan_simt-IsServed : plan_simt e c ≡ true → IsServed e c gemm_simt
  unfolding plan_simt has_ct within
  plan_simt-IsServed h = ground arith

  plan_wmma-IsServed : plan_wmma e c ≡ true → IsServed e c gemm_wmma
  unfolding plan_wmma has_ct
  plan_wmma-IsServed h = ground arith

  fallback-IsServed :
      (0 < c.marlin_numel) ⊎ (0 < c.qpn_numel)
      → plan_qpn2 e c ≡ none
      → plan_mt e c ≡ none
      → plan_qpn e c ≡ false
      → plan_qpn1 e c ≡ false
      → plan_simt e c ≡ false
      → plan_wmma e c ≡ false
      → c.skinny_ok ≡ true
      → IsServed e c (fallback (plan e c))
  unfolding fallback plan plan_reconstruct plan_dense plan_unify_dense has_qpn wmma_ok dense_ok
      transient_fits
  fallback-IsServed r q t a b d w ok = ground (arith, half_of c.dtype)

  after_mt-IsServed :
      (0 < c.marlin_numel) ⊎ (0 < c.qpn_numel)
      → plan_qpn2 e c ≡ none
      → plan_mt e c ≡ none
      → c.skinny_ok ≡ true
      → IsServed e c (after_mt true (plan e c))
  unfolding after_mt plan
  after_mt-IsServed r q t ok = elim (Bool-cases (plan_qpn e c)) [
    | inl h ↦ rw h (plan_qpn-IsServed h)
    | inr a ↦ elim (Bool-cases (plan_qpn1 e c)) [
      | inl h ↦ rw (a, h) (plan_qpn1-IsServed h)
      | inr b ↦ elim (Bool-cases (plan_simt e c)) [
        | inl h ↦ rw (a, b, h) (plan_simt-IsServed h)
        | inr d ↦ elim (Bool-cases (plan_wmma e c)) [
          | inl h ↦ rw (a, b, d, h) (plan_wmma-IsServed h)
          | inr w ↦
              subst (IsServed e c) (sym (after_mt_alone (plan e c) a b d w))
                (fallback-IsServed r q t a b d w ok)
        ]
      ]
    ]
  ]

  after_qpn2-IsServed :
      (o : Option MtGeometry)
      → plan_mt e c ≡ o
      → (0 < c.marlin_numel) ⊎ (0 < c.qpn_numel)
      → plan_qpn2 e c ≡ none
      → c.skinny_ok ≡ true
      → IsServed e c (after_qpn2 true (plan e c) o)
  unfolding after_qpn2
  after_qpn2-IsServed (some g) h r q ok = plan_mt-IsServed g h
  after_qpn2-IsServed none h r q ok = after_mt-IsServed r q h ok

  kernel_of-IsServed :
      (o : Option Geometry)
      → plan_qpn2 e c ≡ o
      → (0 < c.marlin_numel) ⊎ (0 < c.qpn_numel)
      → c.skinny_ok ≡ true
      → IsServed e c (kernel_of true (plan e c) o)
  unfolding kernel_of plan
  kernel_of-IsServed (some g) h r ok = plan_qpn2-IsServed g h
  kernel_of-IsServed none h r ok = after_qpn2-IsServed (plan_mt e c) refl r h ok

  -- A call whose layer holds the packed or the marlin copy of its weight is served, while the
  -- self-check has not failed, by a kernel whose own copy is resident, with the rows, the shape and
  -- the launch geometry that the dispatch requires for it (for the wmma kernel k % 128 == 0). A
  -- dense reconstruction beside a marlin copy is for half-precision inputs outside a capture, with
  -- n % 32 == 0 and k % 16 == 0, from the row threshold on and under the cap on the transient.
  -- Without a marlin copy it is under the same conditions, with the threshold of UNIFY, or else the
  -- shape is one that the wmma kernel does not take, and nothing more is required.
  pub kernel-IsServed :
      c.skinny_ok ≡ true → (0 < c.marlin_numel) ⊎ (0 < c.qpn_numel) → IsServed e c (kernel e c)
  unfolding kernel plan
  kernel-IsServed ok r =
      subst (λ b. IsServed e c (kernel_of b (plan e c) (plan_qpn2 e c))) (sym ok)
        (kernel_of-IsServed (plan_qpn2 e c) refl r ok)
