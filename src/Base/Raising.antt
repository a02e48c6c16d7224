-- ===== src/Base/Raising.antt =====
-- scripts/governance_errors.py: the exception classes as values, without their message texts, and
-- the results of code that may raise.
use mathlib.Core.Path.{◌≡◌, refl}
use mathlib.Core.Logic.{◌⊎◌, inl, inr}
use mathlib.Core.Bool.{Bool, true, false}
use mathlib.Core.Option.{Option, none, some}

-- Where an unconfirmed claim stopped.
pub data Stage : Type 0 where
  state validation material commit : Stage

-- `value_error`, `key_error`, `type_error`, `os_error` and `runtime_error` are the built-in classes
-- that the code raises or meets; the next three are the subclasses of OSError that it tells apart.
-- `material_conflict` is a StateConflictError whose cause is a ContextMaterialConflictError, and
-- `claim_failure` carries its stage and its cause.
pub data Error : Type 0 where
  value_error key_error type_error os_error runtime_error : Error
  not_found not_a_directory is_a_directory : Error
  state_validation state_capacity state_conflict state_write : Error
  capability_expired dispatch_preparation : Error
  native_unavailable native_mismatch : Error
  context_verification context_conflict : Error
  material_conflict : Error
  claim_failure : Stage → Error → Error

-- What a call of such code ends with: the class that it raised, or the value that it returned.
pub data Result {ℓ} (A : Type ℓ) : Type ℓ where
  err : Error → Result A
  ok : A → Result A

-- `if value is None: raise e`
abbrev pub or_raise {ℓ} : {A : Type ℓ} → Option A → Error → Result A
or_raise (some value) e = ok value
or_raise none e = err e

-- `if not test: raise e`
abbrev pub guard : Bool → Error → Result (Unit {0})
guard test e = elim test [ false ↦ err e | true ↦ ok tt ]

-- The rest of a body runs where nothing was raised before it.
infixl 5 ◌>>◌ ◌>>=◌
abbrev pub ◌>>=◌ {ℓ κ} : {A : Type ℓ} {B : Type κ} → Result A → (A → Result B) → Result B
err e >>= rest = err e
ok value >>= rest = rest value

-- `first; rest`
abbrev pub ◌>>◌ {κ} : {B : Type κ} → Result (Unit {0}) → Result B → Result B
first >> rest = first >>= λ done. rest

module _ {ℓ} {A : Type ℓ} where
  pub Result-cases : (r : Result A) → ((a : A) × (r ≡ ok a)) ⊎ ((e : Error) × (r ≡ err e))
  Result-cases (err e) = inr (e, refl)
  Result-cases (ok a) = inl (a, refl)

  -- A body that returns got past its first call, and past the rest of it.
  pub >>=-eq-ok {κ} :
      {B : Type κ} {b : B} (first : Result A) (rest : A → Result B)
      → (first >>= rest) ≡ ok b
      → (a : A) × (first ≡ ok a) × (rest a ≡ ok b)
  >>=-eq-ok (err e) rest h = absurd (cc)
  >>=-eq-ok (ok value) rest h = (value, refl, h)
