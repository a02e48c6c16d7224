-- ===== src/Hook/Conflicts.antt =====
-- Which exceptions of a claim make the Hook of governance_hook.py deny a call.
use subagent_governance.Base.{◌≡◌, ◌≢◌, ◌↔◌, refl, arith, Error, Stage}
use subagent_governance.Hook.Messages.{Site, Action}
use subagent_governance.Hook.Classify.{classify_failure, classify_cause}

-- A difference that the claim has found: of the native call, of the ledger or of the material.
pub data IsConflict : Error → Type 0 where
  native : IsConflict Error.native_mismatch
  expired : IsConflict Error.capability_expired
  ledger : IsConflict Error.state_conflict
  material : IsConflict Error.material_conflict

-- A conflict, raised as it is or as the cause of a claim that failed before its commit.
pub data IsDenied : Error → Type 0 where
  raised : {e : Error} → IsConflict e → IsDenied e
  caused :
      {s : Stage} {e : Error} → s ≢ Stage.commit → IsConflict e → IsDenied (Error.claim_failure s e)

IsConflict-classify_cause :
    (s : Site) (e : Error) → IsConflict e → (classify_cause s e).action ≡ Action.deny
unfolding classify_cause
IsConflict-classify_cause s e IsConflict.native = refl
IsConflict-classify_cause s e IsConflict.expired = refl
IsConflict-classify_cause s e IsConflict.ledger = refl
IsConflict-classify_cause s e IsConflict.material = refl

classify_cause-IsConflict :
    (s : Site) (e : Error) → (classify_cause s e).action ≡ Action.deny → IsConflict e
unfolding classify_cause
classify_cause-IsConflict s Error.native_mismatch h = IsConflict.native
classify_cause-IsConflict s Error.capability_expired h = IsConflict.expired
classify_cause-IsConflict s Error.state_conflict h = IsConflict.ledger
classify_cause-IsConflict s Error.material_conflict h = IsConflict.material
classify_cause-IsConflict s e h = absurd (ground (arith, h))

classify_failure-IsDenied : (e : Error) → (classify_failure e).action ≡ Action.deny → IsDenied e
unfolding classify_failure
classify_failure-IsDenied (Error.claim_failure Stage.commit e) h = absurd (cc)
classify_failure-IsDenied (Error.claim_failure Stage.state e) h =
    IsDenied.caused (λ c. cc) (classify_cause-IsConflict (Site.inside Stage.state) e h)
classify_failure-IsDenied (Error.claim_failure Stage.validation e) h =
    IsDenied.caused (λ c. cc) (classify_cause-IsConflict (Site.inside Stage.validation) e h)
classify_failure-IsDenied (Error.claim_failure Stage.material e) h =
    IsDenied.caused (λ c. cc) (classify_cause-IsConflict (Site.inside Stage.material) e h)
classify_failure-IsDenied e h = IsDenied.raised (classify_cause-IsConflict Site.whole_claim e h)

IsDenied-classify_failure : (e : Error) → IsDenied e → (classify_failure e).action ≡ Action.deny
unfolding classify_failure
IsDenied-classify_failure e (IsDenied.raised IsConflict.native) = refl
IsDenied-classify_failure e (IsDenied.raised IsConflict.expired) = refl
IsDenied-classify_failure e (IsDenied.raised IsConflict.ledger) = refl
IsDenied-classify_failure e (IsDenied.raised IsConflict.material) = refl
IsDenied-classify_failure _ (IsDenied.caused {s = Stage.commit} other c) = absurd (other refl)
IsDenied-classify_failure _ (IsDenied.caused {s = Stage.state} {e = e} other c) =
    IsConflict-classify_cause (Site.inside Stage.state) e c
IsDenied-classify_failure _ (IsDenied.caused {s = Stage.validation} {e = e} other c) =
    IsConflict-classify_cause (Site.inside Stage.validation) e c
IsDenied-classify_failure _ (IsDenied.caused {s = Stage.material} {e = e} other c) =
    IsConflict-classify_cause (Site.inside Stage.material) e c

-- An exception of a claim makes the Hook deny the call just where it is a conflict, raised as it is
-- or as the cause of a claim that failed before its commit.
pub classify_failure-deny : (e : Error) → ((classify_failure e).action ≡ Action.deny) ↔ IsDenied e
classify_failure-deny e = (classify_failure-IsDenied e, IsDenied-classify_failure e)
