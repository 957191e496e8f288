-- ===== src/Base/Result.antt =====
-- A Go call that returns a value or an error, or panics (a nil pointer is followed), over a state
-- that keeps what was written.
use Prim.Native.String.{String}
use mathlib.Core.Path.{◌≡◌, refl}
use mathlib.Core.Logic.{◌⊎◌, inl, inr}
use mathlib.Core.Bool.{Bool, true, false}
use mandible.Base.Tests.{if◌then◌else◌}

-- An `error` value is known by its message.
abbrev pub Error : Type 0
Error = String

abbrev pub ⊤ : Type 0
⊤ = Unit

pub data Result (A : Type 0) : Type 0 where
  ok : A → Result A
  err : Error → Result A
  panic : Result A

abbrev pub is_ok : {A : Type 0} → Result A → Bool
is_ok (ok _) = true
is_ok (err _) = false
is_ok panic = false

-- The call gives a value, and the value passes.
abbrev pub succeeds : {A : Type 0} → Result A → (A → Bool) → Bool
succeeds (ok a) p = p a
succeeds (err _) p = false
succeeds panic p = false

abbrev pub Action : Type 0 → Type 0 → Type 0
Action S A = S → Result A × S

module _ {S A : Type 0} where
  abbrev pub pure : A → Action S A
  pure a s = (ok a, s)

  abbrev pub fail : Error → Action S A
  fail e s = (err e, s)

  abbrev pub gets : (S → A) → Action S A
  gets f s = (ok (f s), s)

  abbrev pub of_result : (S → Result A) → Action S A
  of_result f s = (f s, s)

infixl 5 ◌>>=◌ ◌>>◌
abbrev pub ◌>>=◌ : {S A B : Type 0} → Action S A → (A → Action S B) → Action S B
◌>>=◌ m f s =
    let (r, s') = m s in elim r [ ok a ↦ f a s' | err e ↦ (err e, s') | panic ↦ (panic, s') ]

abbrev pub ◌>>◌ : {S A B : Type 0} → Action S A → Action S B → Action S B
m >> k = m >>= λ _. k

module _ {S : Type 0} where
  abbrev pub modify : (S → S) → Action S ⊤
  modify f s = (ok tt, f s)

  -- `if c { return e }`
  abbrev pub fail_if : Bool → Error → Action S ⊤
  fail_if c e s = (if c then err e else ok tt, s)

pub Result-cases :
    {A : Type 0} (r : Result A)
    → ((a : A) × (r ≡ ok a)) ⊎ (((e : Error) × (r ≡ err e)) ⊎ (r ≡ panic))
Result-cases (ok a) = inl (a, refl)
Result-cases (err e) = inr (inl (e, refl))
Result-cases panic = inr (inr refl)
