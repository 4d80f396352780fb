-- ===== src/Prelude/Tests.antt =====
-- Boolean tests on the native numbers, the conditional, and splits that keep the equation.
use Prim.Native.Nat.{ℕ, zero, suc, ◌≤◌, ◌<◌, compare, Ordering}
use mathlib.Core.Path.{◌≡◌, refl}
use mathlib.Core.Logic.{◌↔◌, ◌⊎◌, ◌≢◌, inl, inr}
use mathlib.Core.Bool.{Bool, true, false, ◌&&◌}
use native.Mathlib.Omega.{arith}

-- These compute to `compare`, which `ground` and `grind` read with no lemma listed.
abbrev pub ltb : ℕ → ℕ → Bool
ltb a b = elim (compare a b) [ Ordering.lt ↦ true | _ ↦ false ]

abbrev pub leb : ℕ → ℕ → Bool
leb a b = elim (compare a b) [ Ordering.gt ↦ false | _ ↦ true ]

infix 50 ◌==◌
abbrev pub ◌==◌ : ℕ → ℕ → Bool
a == b = elim (compare a b) [ Ordering.eq ↦ true | _ ↦ false ]

infix 1 if◌then◌else◌
abbrev pub if◌then◌else◌ {ℓ} : {A : Type ℓ} → Bool → A → A → A
if true then x else y = x
if false then x else y = y

pub ==_iff : (a b : ℕ) → ((a == b) ≡ true) ↔ (a ≡ b)
==_iff a b = ground arith

pub Bool-cases : (b : Bool) → (b ≡ true) ⊎ (b ≡ false)
Bool-cases true = inl refl
Bool-cases false = inr refl

-- A test that holds of every number under a bound.
unfoldable pub every_under : ℕ → (ℕ → Bool) → Bool
every_under zero test = true
every_under (suc bound) test = every_under bound test && test bound

pub every_under_at :
    (bound : ℕ) (test : ℕ → Bool) {x : ℕ}
    → x < bound
    → every_under bound test ≡ true
    → test x ≡ true
unfolding every_under
every_under_at zero test below all = absurd (omega arith)
every_under_at (suc bound) test {x} below all = ground (arith, every_under_at bound test {x = x})

pub ltb→lt : (a b : ℕ) → ltb a b ≡ true → a < b
ltb→lt a b h = ground arith

pub ltb→le : (a b : ℕ) → ltb a b ≡ false → b ≤ a
ltb→le a b h = ground arith

pub every_under_of :
    (bound : ℕ) (test : ℕ → Bool)
    → ((x : ℕ) → x < bound → test x ≡ true)
    → every_under bound test ≡ true
unfolding every_under
every_under_of zero test all = refl
every_under_of (suc bound) test all =
    ground (arith, all bound (omega arith), every_under_of bound test (λ x lt. all x (omega arith)))

pub zero-cases : (n : ℕ) → (n ≡ 0) ⊎ (n ≢ 0)
zero-cases zero = inl refl
zero-cases (suc n) = inr (λ e. absurd (omega arith))

pub if_false : {A : Type 0} (b : Bool) (x y : A) → b ≡ false → (if b then x else y) ≡ y
if_false true x y e = cc
if_false false x y e = refl

pub lt-cases : (b a : ℕ) → b ≤ a → (b ≡ a) ⊎ (b < a)
lt-cases b a h = elim (Bool-cases (b == a)) [
  | inl e ↦ inl (ground arith)
  | inr e ↦ inr (ground arith)
]

pub positive : (n : ℕ) → n ≢ 0 → 0 < n
positive zero h = absurd (h refl)
positive (suc n) h = omega arith

pub if_true : {A : Type 0} (b : Bool) (x y : A) → b ≡ true → (if b then x else y) ≡ x
if_true true x y e = refl
if_true false x y e = cc
