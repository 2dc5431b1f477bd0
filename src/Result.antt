-- ===== src/Result.antt =====
-- packages/glyff/src/glyff/exceptions.py and the built-in exceptions that the code raises.
use glyff.Prelude.{ℕ, Bool, true, false, ◌≡◌, refl, ◌⊎◌, inl, inr}
use glyff.Types.{DomainId, DomainVersion}

pub data Error : Type 0 where
  value_error type_error key_error lookup_error runtime_error assertion_error : Error
  attribute_error : Error
  type_hint_resolution missing_type_hint context_not_set no_current_execution : Error
  serialization argument_canonicalization invalid_execution store_format_version : Error
  -- domain, recorded version, current version
  domain_version_mismatch : DomainId → DomainVersion → DomainVersion → Error
  migration migration_collision migration_ordinal_ambiguity : Error
  -- an exception of the application's own
  application : ℕ → Error
  -- asyncio.CancelledError: a `BaseException` that is no `Exception`
  cancelled : Error

-- What `except Exception` catches.
abbrev pub is_exception : Error → Bool
is_exception cancelled = false
is_exception _ = true

pub data Result {ℓ} (A : Type ℓ) : Type ℓ where
  ok : A → Result A
  err : Error → Result A

module _ {ℓ κ} {A : Type ℓ} {B : Type κ} where
  infixl 10 ◌>>=◌ ◌>>◌
  abbrev pub ◌>>=◌ : Result A → (A → Result B) → Result B
  ok a >>= next = next a
  err raised >>= next = err raised

  abbrev pub ◌>>◌ : Result A → Result B → Result B
  first >> second = first >>= λ _. second

  -- Inversion of a successful chain.
  pub >>=-eq-ok :
      {b : B} (r : Result A) (next : A → Result B)
      → (r >>= next) ≡ ok b
      → (a : A) × (r ≡ ok a) × (next a ≡ ok b)
  >>=-eq-ok (ok a) next done = (a, refl, done)
  >>=-eq-ok (err raised) next done = cc

-- if not test: raise error
abbrev pub require : Bool → Error → Result (Unit {0})
require true e = ok tt
require false e = err e

abbrev pub is_ok {ℓ} : {A : Type ℓ} → Result A → Bool
is_ok (ok _) = true
is_ok (err _) = false

pub Result-cases {ℓ} :
    {A : Type ℓ} (r : Result A) → ((a : A) × (r ≡ ok a)) ⊎ ((e : Error) × (r ≡ err e))
Result-cases (ok a) = inl (a, refl)
Result-cases (err e) = inr (e, refl)
