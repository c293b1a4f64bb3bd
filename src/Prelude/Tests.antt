-- ===== src/Prelude/Tests.antt =====
-- Boolean tests on the native numbers, the conditional, and the exceptions that the code throws.
use Prim.Native.Nat.{ℕ, compare, Ordering}
use mathlib.Core.Path.{◌≡◌, refl}
use mathlib.Core.Logic.{◌↔◌, ◌⊎◌, inl, inr}
use mathlib.Core.Bool.{Bool, true, false}
use mathlib.Core.Option.{Option, none, some}
use native.Mathlib.Omega.{arith}

abbrev pub ltb : ℕ → ℕ → Bool
ltb a b = elim (compare a b) [ Ordering.lt ↦ true | _ ↦ false ]

abbrev pub leb : ℕ → ℕ → Bool
leb a b = elim (compare a b) [ Ordering.gt ↦ false | _ ↦ true ]

infix 50 ◌==◌
abbrev pub ◌==◌ : ℕ → ℕ → Bool
a == b = elim (compare a b) [ Ordering.eq ↦ true | _ ↦ false ]

infix 1 if◌then◌else◌
abbrev pub if◌then◌else◌ {ℓ} : {A : Type ℓ} → Bool → A → A → A
if true then x else y = x
if false then x else y = y

pub ==_iff : (a b : ℕ) → ((a == b) ≡ true) ↔ (a ≡ b)
==_iff a b = ground arith

pub ==_refl : (a : ℕ) → (a == a) ≡ true
==_refl a = ground arith

pub Bool-cases : (b : Bool) → (b ≡ true) ⊎ (b ≡ false)
Bool-cases true = inl refl
Bool-cases false = inr refl

-- A predicate of a choice, by the test that made it.
pub either {ℓ κ} :
    {A : Type ℓ} (P : A → Type κ) (test : Bool) (a b : A)
    → (test ≡ true → P a)
    → (test ≡ false → P b)
    → P (if test then a else b)
either P true a b f g = f refl
either P false a b f g = g refl

pub Option-cases {ℓ} : {A : Type ℓ} (o : Option A) → (o ≡ none) ⊎ ((a : A) × (o ≡ some a))
Option-cases none = inl refl
Option-cases (some a) = inr (a, refl)

-- The standard exceptions that the modelled code throws.
pub data Exception : Type 0 where
  invalid_argument out_of_range length_error overflow_error runtime_error : Exception

-- A call that returns, or throws and leaves the object as it was before the call.
pub data Result {ℓ} (A : Type ℓ) : Type ℓ where
  ok : A → Result A
  err : Exception → Result A

infixl 5 ◌>>◌ ◌>>=◌
-- A statement that may throw, and what stands behind it.
abbrev pub ◌>>◌ {ℓ} : {T : Type ℓ} → Result (Unit {0}) → Result T → Result T
ok tt >> rest = rest
err thrown >> rest = err thrown

-- A call that may throw, and the code that its result goes to.
abbrev pub ◌>>=◌ {ℓ κ} : {S : Type ℓ} {T : Type κ} → Result S → (S → Result T) → Result T
err thrown >>= rest = err thrown
ok value >>= rest = rest value

-- `if (refused) throw e;`
abbrev pub throw_if : Bool → Exception → Result (Unit {0})
throw_if true e = err e
throw_if false e = ok tt

pub Result-cases {ℓ} :
    {A : Type ℓ} (r : Result A) → ((a : A) × (r ≡ ok a)) ⊎ ((e : Exception) × (r ≡ err e))
Result-cases (ok a) = inl (a, refl)
Result-cases (err e) = inr (e, refl)
