-- ===== src/Skinny/Wmma/Laws.antt =====
-- Which of the calls that are sent to the wmma kernel pass its launch checks.
use v100_skinny_unify.Prelude.{ℕ, ◌%◌, ◌≤◌, ◌<◌, ◌≡◌, ◌↔◌, ◌⊎◌, true, arith}
use v100_skinny_unify.Skinny.Env.{Env}
use v100_skinny_unify.Skinny.Route.{
  Call, Kernel, gemm_qpn2, gemm_qpn2_mtt, gemm_qpn, gemm_qpn_simt, gemm_simt, gemm_wmma,
  unprepack_wmma, dense, marlin, kernel,
}
use v100_skinny_unify.Skinny.Route.Launch.{IsServed, kernel-IsServed}
use v100_skinny_unify.Skinny.Wmma.{wmma_takes}

-- When the checks of a launch of the wmma kernel pass: always after an unpacking, and beside a
-- resident copy for 17 to 64 rows, or else if k % 256 == 0.
abbrev pub WmmaTakes : Call → Kernel → Type 0
WmmaTakes c gemm_wmma =
    (wmma_takes c.m c.n c.k ≡ true) ↔ ((17 ≤ c.m) × (c.m ≤ 64)) ⊎ (c.k % 256 ≡ 0)
WmmaTakes c unprepack_wmma = wmma_takes c.m c.n c.k ≡ true
WmmaTakes c _ = Unit {0}

pub wmma_takes_tiled :
    (m n k : ℕ)
    → k % 128 ≡ 0
    → n % 64 ≡ 0
    → (wmma_takes m n k ≡ true) ↔ ((17 ≤ m) × (m ≤ 64)) ⊎ (k % 256 ≡ 0)
unfolding wmma_takes
wmma_takes_tiled m n k hk hn = ground arith

wmma_takes_256 : (m n k : ℕ) → k % 256 ≡ 0 → n % 64 ≡ 0 → wmma_takes m n k ≡ true
unfolding wmma_takes
wmma_takes_256 m n k hk hn = ground arith

IsServed-WmmaTakes : (e : Env) (c : Call) (q : Kernel) → IsServed e c q → WmmaTakes c q
IsServed-WmmaTakes e c (gemm_qpn2 g) s = tt
IsServed-WmmaTakes e c (gemm_qpn2_mtt g) s = tt
IsServed-WmmaTakes e c gemm_qpn s = tt
IsServed-WmmaTakes e c gemm_qpn_simt s = tt
IsServed-WmmaTakes e c gemm_simt s = tt
IsServed-WmmaTakes e c gemm_wmma (present, band, hk, hn) = wmma_takes_tiled c.m c.n c.k hk hn
IsServed-WmmaTakes e c unprepack_wmma (present, absent, hk, hn) = wmma_takes_256 c.m c.n c.k hk hn
IsServed-WmmaTakes e c dense s = tt
IsServed-WmmaTakes e c marlin s = tt

-- The launch checks of the wmma kernel against the dispatch, for a call whose layer holds the
-- packed or the marlin copy, while the self-check has not failed: a weight that is unpacked for
-- it passes them, and a call on the resident checkpoint-native copy passes them exactly when it
-- has 17 to 64 rows or k % 256 == 0. The dispatch asks only for k % 128 == 0.
pub kernel-WmmaTakes :
    (e : Env) (c : Call)
    → c.skinny_ok ≡ true
    → (0 < c.marlin_numel) ⊎ (0 < c.qpn_numel)
    → WmmaTakes c (kernel e c)
kernel-WmmaTakes e c ok r = IsServed-WmmaTakes e c (kernel e c) (kernel-IsServed e c ok r)
