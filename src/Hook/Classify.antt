-- ===== src/Hook/Classify.antt =====
-- classify_failure of scripts/governance_hook_diagnostics.py: what an exception of a claim becomes.
use subagent_governance.Base.{Bool, true, false, Error, Stage}
use subagent_governance.Hook.Messages.{Code, Site, Evidence, Action, Diagnosis}

unconfirmed : Site → Code → Action → Diagnosis
unconfirmed stage code action = record {
  code = code;
  stage = stage;
  claim = Evidence.unconfirmed;
  action = action;
}

is_material : Site → Bool
is_material (Site.inside Stage.material) = true
is_material _ = false

-- The chain of tests on the class, in the order of the code: at the stage `material` what is neither
-- a native error nor a conflict is material that could not be checked.
abbrev by_stage : Bool → Site → Code → Diagnosis
by_stage true stage code = unconfirmed stage Code.material_unavailable Action.allow
by_stage false stage code = unconfirmed stage code Action.allow

unfoldable pub classify_cause : Site → Error → Diagnosis
unfolding unconfirmed is_material
classify_cause stage Error.native_unavailable =
    unconfirmed stage Code.input_unavailable Action.allow
classify_cause stage Error.native_mismatch = unconfirmed stage Code.native_conflict Action.deny
classify_cause stage Error.capability_expired =
    unconfirmed stage Code.preparation_expired Action.deny
classify_cause stage Error.material_conflict = unconfirmed stage Code.material_conflict Action.deny
classify_cause stage Error.state_conflict = unconfirmed stage Code.claim_conflict Action.deny
classify_cause stage Error.context_verification =
    unconfirmed stage Code.material_unavailable Action.allow
classify_cause stage Error.context_conflict =
    unconfirmed stage Code.material_unavailable Action.allow
classify_cause stage Error.state_validation =
    by_stage (is_material stage) stage Code.state_unavailable
classify_cause stage Error.state_capacity =
    by_stage (is_material stage) stage Code.state_unavailable
classify_cause stage Error.state_write = by_stage (is_material stage) stage Code.state_unavailable
classify_cause stage Error.os_error = by_stage (is_material stage) stage Code.state_unavailable
classify_cause stage Error.not_found = by_stage (is_material stage) stage Code.state_unavailable
classify_cause stage Error.not_a_directory =
    by_stage (is_material stage) stage Code.state_unavailable
classify_cause stage Error.is_a_directory =
    by_stage (is_material stage) stage Code.state_unavailable
classify_cause stage e = by_stage (is_material stage) stage Code.internal_error

-- classify_failure
unfoldable pub classify_failure : Error → Diagnosis
unfolding classify_cause
classify_failure (Error.claim_failure Stage.commit e) = record {
  code = Code.claim_commit_unknown;
  stage = Site.inside Stage.commit;
  claim = Evidence.unknown;
  action = Action.allow;
}
classify_failure (Error.claim_failure stage e) = classify_cause (Site.inside stage) e
classify_failure e = classify_cause Site.whole_claim e
