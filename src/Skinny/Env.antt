-- ===== src/Skinny/Env.antt =====
-- The switches that fork_patches/marlin.py reads from the environment when it is imported.
use v100_skinny_unify.Prelude.{ℕ, ◌*◌, Bool, true, false}

pub record Env : Type 0 where
  pub skinny_enabled : Bool
  pub skinny_max_m : ℕ
  pub qpn_enabled : Bool
  pub qpn_drop_ct : Bool
  pub qpn2_enabled : Bool
  pub qpn2_mt_enabled : Bool
  pub recon_min_m : ℕ
  pub recon_max_bytes : ℕ
  pub unify_dense_min_m : ℕ
  pub skinny_unify : Bool

-- The values with no variable set.
abbrev pub defaults : Env
defaults = record {
  skinny_enabled = false;
  skinny_max_m = 64;
  qpn_enabled = true;
  qpn_drop_ct = false;
  qpn2_enabled = true;
  qpn2_mt_enabled = true;
  recon_min_m = 512;
  recon_max_bytes = 256 * 1024 * 1024;
  unify_dense_min_m = 128;
  skinny_unify = false;
}
