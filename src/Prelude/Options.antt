-- ===== src/Prelude/Options.antt =====
-- Chains of results that may be missing, and what a result of such a chain tells.
use mathlib.Core.Path.{◌≡◌, refl, subst}
use mathlib.Core.Logic.{◌⊎◌, inl, inr}
use mathlib.Core.Option.{Option, none, some}
use mathlib.Core.Bool.{Bool, true, false}
use v100_skinny_unify.Prelude.Tests.{if◌then◌else◌}
use native.Mathlib.Omega.{arith}

infixl 20 ◌>>=◌
unfoldable pub ◌>>=◌ {ℓ ℓ'} : {A : Type ℓ} {B : Type ℓ'} → Option A → (A → Option B) → Option B
none >>= next = none
some a >>= next = next a

-- A chain that has a result had one at its first step.
pub >>=-first {ℓ ℓ'} :
    {A : Type ℓ} {B : Type ℓ'} (o : Option A) (next : A → Option B) {b : B}
    → (o >>= next) ≡ some b
    → (a : A) × (o ≡ some a) × (next a ≡ some b)
unfolding ◌>>=◌
>>=-first none next h = absurd (ground arith)
>>=-first (some a) next h = (a, refl, h)

-- What a result satisfies, if there is one.
unfoldable pub Holds : {B : Type 0} → (B → Type 0) → Option B → Type 0
Holds P none = Unit {0}
Holds P (some b) = P b

pub >>=-Holds :
    {A B : Type 0} (P : B → Type 0) (o : Option A) (next : A → Option B)
    → ((a : A) → o ≡ some a → Holds P (next a))
    → Holds P (o >>= next)
unfolding ◌>>=◌ Holds
>>=-Holds P none next step = tt
>>=-Holds P (some a) next step = step a refl

pub Holds-some : {B : Type 0} (P : B → Type 0) (o : Option B) {b : B} → Holds P o → o ≡ some b → P b
unfolding Holds
Holds-some P o h e = subst (Holds P) e h

pub if-Holds :
    {B : Type 0} (P : B → Type 0) (test : Bool) (a b : Option B)
    → (test ≡ true → Holds P a)
    → (test ≡ false → Holds P b)
    → Holds P (if test then a else b)
if-Holds P true a b f g = f refl
if-Holds P false a b f g = g refl

pub Option-cases : {A : Type 0} (o : Option A) → (o ≡ none) ⊎ ((x : A) × (o ≡ some x))
Option-cases none = inl refl
Option-cases (some x) = inr (x, refl)

pub some_injective : {A : Type 0} {x y : A} → some x ≡ some y → x ≡ y
some_injective e = cc

-- The branch that a result came from.
pub if_cases :
    {A : Type 0} (test : Bool) (a b : Option A) (x : A)
    → (if test then a else b) ≡ some x
    → ((test ≡ true) × (a ≡ some x)) ⊎ ((test ≡ false) × (b ≡ some x))
if_cases true a b x e = inl (refl, e)
if_cases false a b x e = inr (refl, e)
