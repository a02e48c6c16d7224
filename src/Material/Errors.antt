-- ===== src/Material/Errors.antt =====
-- The errors that a verification of governance_context.py ends with.
use mathlib.Core.Path.{subst}
use subagent_governance.Base.{ℕ, ◌≡◌, refl, arith, false, Result, ok, err, Error}
use subagent_governance.Contract.{Manifest, Verification}
use subagent_governance.Material.Outside.{World, attempt}
use subagent_governance.Material.Files.{is_os_error}
use subagent_governance.Material.{verify_declared, verification_failed, verify_context_manifest}

-- How an error of the body is told: a path that is missing, or that a part of it is no directory or
-- the whole of it is one, is a conflict; any other error of the operating system is a verification
-- that could not be completed; what is none of the operating system is passed on.
pub data IsTold : Error → Error → Type 0 where
  missing : IsTold Error.not_found Error.context_conflict
  not_a_directory : IsTold Error.not_a_directory Error.context_conflict
  is_a_directory : IsTold Error.is_a_directory Error.context_conflict
  fault : IsTold Error.os_error Error.context_verification
  passed : (e : Error) → is_os_error e ≡ false → IsTold e e

-- What the caller sees of the error of a verification.
pub record IsFailed (world : World) (looks : ℕ) (m : Manifest) (told : Error) : Type 0 where
  pub met : Error
  pub until : ℕ
  pub body : verify_declared world m looks ≡ (err met, until)
  pub telling : IsTold met told
  pub no_os_error : is_os_error told ≡ false

path-IsTold :
    (e x d : Error)
    → IsTold e x
    → is_os_error x ≡ false
    → ◌≡◌ {A = Result Verification} (err x) (err d)
    → IsTold e d × (is_os_error d ≡ false)
path-IsTold e x d p n h =
    let same : x ≡ d = ground (arith, h) in
    subst (λ y. IsTold e y × (is_os_error y ≡ false)) same (p, n)

failed-IsTold :
    (world : World) (e d : Error) (looks : ℕ)
    → (verification_failed world e looks).0 ≡ err d
    → IsTold e d × (is_os_error d ≡ false)
unfolding verification_failed
failed-IsTold world Error.not_found d looks h = path-IsTold _ _ d IsTold.missing refl h
failed-IsTold world Error.not_a_directory d looks h =
    path-IsTold _ _ d IsTold.not_a_directory refl h
failed-IsTold world Error.is_a_directory d looks h = path-IsTold _ _ d IsTold.is_a_directory refl h
failed-IsTold world Error.os_error d looks h = path-IsTold _ _ d IsTold.fault refl h
failed-IsTold world e d looks h = path-IsTold e e d (IsTold.passed e refl) refl h

recovered-IsFailed :
    (world : World) (m : Manifest) (r : Result Verification × ℕ) (looks : ℕ) (d : Error)
    → verify_declared world m looks ≡ r
    → (attempt (verify_declared world m) (verification_failed world) looks).0 ≡ err d
    → IsFailed world looks m d
recovered-IsFailed world m (ok v, n) looks d e h = absurd (ground (arith, e, h))
recovered-IsFailed world m (err c, n) looks d e h =
    let (telling, none_left) = failed-IsTold world c d n (ground (arith, e, h)) in
    record { met = c; until = n; body = e; telling = telling; no_os_error = none_left }

-- An error of verify_context_manifest comes from one that its body met. A path that is missing, that
-- has a part which is no directory or that is a directory itself was a conflict of the material,
-- any other error of the operating system a verification that could not be completed, and an error
-- that is none of the operating system was passed on; so none of the operating system is left.
pub verify_context_manifest-IsFailed :
    (world : World) (looks : ℕ) (m : Manifest) (d : Error)
    → verify_context_manifest world looks m ≡ err d
    → IsFailed world looks m d
unfolding verify_context_manifest
verify_context_manifest-IsFailed world looks m d h =
    recovered-IsFailed world m (verify_declared world m looks) looks d refl h
