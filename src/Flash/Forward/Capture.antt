-- ===== src/Flash/Forward/Capture.antt =====
-- What a captured call runs, against the calls that are not captured.
use v100_skinny_unify.Prelude.{ℕ, ◌≤◌, ◌<◌, ◌≡◌, refl, true, false, Option, some, arith}
use v100_skinny_unify.Flash.Cache.{Layout, DecodeCache}
use v100_skinny_unify.Flash.Forward.Settings.{Impl, supports_flash_v100_path}
use v100_skinny_unify.Flash.Forward.{
  capture_smallq, prefix, with_prefix, Call, small_query_decode_enabled, context, forward_prefill,
  forward_decode, forward,
}

-- The switches without the bridges of a decode, which read on the host.
abbrev pub no_bridges : Impl → Impl
no_bridges impl = record impl {
  use_decode_paged_prefill = false;
  use_decode_dense_cache = false;
  use_decode_dense_reference = false;
}

module _ {V : Type 0} where
  abbrev pub eager : Call V → Call V
  eager c = record c { is_capturing = false }

  module _ (recast : Layout → Layout → Option (V → V)) (junk : ℕ → V) (impl : Impl) (c : Call V)
      (s : DecodeCache V) where
    captured_decode :
        c.is_capturing ≡ true
        → forward_decode recast junk impl c s
          ≡ forward_decode recast junk (no_bridges impl) (eager c) s
    unfolding forward_decode
    captured_decode capture = ground arith

    same_support : supports_flash_v100_path impl ≡ supports_flash_v100_path (no_bridges impl)
    unfolding supports_flash_v100_path
    same_support = refl

    -- A captured decode is the eager decode of the same call with the bridges switched off, whatever
    -- their switches: the same route, and the dense cache stays as that leaves it.
    pub forward-eager :
        c.is_capturing ≡ true
        → c.metadata.max_query_len ≤ 1
        → forward recast junk impl (some c) s
          ≡ forward recast junk (no_bridges impl) (some (eager c)) s
    unfolding forward
    forward-eager capture short = ground (arith, captured_decode capture, same_support)

    -- The small queries of a prefill are captured on the path that a replay needs: the captured call
    -- takes the prefix path whatever its lengths are, and leaves the dense cache alone; and an eager
    -- call with a context takes the prefix path too. The features are supported and Triton is not
    -- asked for.
    pub forward-prefix :
        (c' : Call V) (t : DecodeCache V)
        → supports_flash_v100_path impl ≡ true
        → impl.use_triton_prefill ≡ false
        → c.is_capturing ≡ true
        → 1 < c.metadata.max_query_len
        → small_query_decode_enabled impl c.metadata ≡ true
        → c'.is_capturing ≡ false
        → 1 < c'.metadata.max_query_len
        → context recast junk impl c' ≡ some true
        → (forward recast junk impl (some c) s ≡ (with_prefix capture_smallq, s))
          × ((forward recast junk impl (some c') t).0 ≡ with_prefix prefix)
    unfolding forward forward_prefill
    forward-prefix c' t path no_triton capture long small eager_call long' some_context =
        (ground arith, ground arith)
