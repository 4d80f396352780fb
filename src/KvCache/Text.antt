-- ===== src/KvCache/Text.antt =====
-- Python's tests on `str` that the policy makes. `lower` is needed only against ASCII keys, which no
-- other character is lowered to.
use v100_skinny_unify.Prelude.{
  ℕ, ◌+◌, Bool, true, false, List, [], ◌∷◌, leb, ◌==◌, ◌&&◌, ◌||◌, if◌then◌else◌,
}
use Prim.Native.Char.{code}
use Prim.Native.String.{String, compare}
use Prim.Native.String as Native
use text.Mathlib.Text.{is_eq}

abbrev pub same_text : String → String → Bool
same_text s t = is_eq (compare s t)

unfoldable pub starts_with : String → String → Bool
starts_with s Native.[] = true
starts_with Native.[] (Native.◌∷◌ d t) = false
starts_with (Native.◌∷◌ c s) (Native.◌∷◌ d t) = code c == code d && starts_with s t

unfoldable pub ends_with : String → String → Bool
ends_with Native.[] t = same_text Native.[] t
ends_with (Native.◌∷◌ c s) t = same_text (Native.◌∷◌ c s) t || ends_with s t

-- The number of a character of `s.lower()`.
unfoldable pub lower_code : ℕ → ℕ
lower_code n = if leb 65 n && leb n 90 then n + 32 else n

-- s.lower() == t
unfoldable pub lowers_to : String → String → Bool
lowers_to Native.[] Native.[] = true
lowers_to (Native.◌∷◌ c s) (Native.◌∷◌ d t) = lower_code (code c) == code d && lowers_to s t
lowers_to _ _ = false

-- s in ss
unfoldable pub is_among : String → List String → Bool
is_among s [] = false
is_among s (t ∷ ts) = same_text s t || is_among s ts
