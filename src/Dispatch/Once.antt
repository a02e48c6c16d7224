-- ===== src/Dispatch/Once.antt =====
-- A prepared capability of governance_dispatch.py is consumed by one call.
use subagent_governance.Base.{
  ℕ, Text, text_eq, ◌≡◌, ◌≢◌, ◌<◌, refl, arith, Option, none, some, Bool, false, true, ◌>>=◌,
  Result, ok, err, Error, >>=-eq-ok, or_raise, guard, ltb, Stage,
}
use subagent_governance.Json.{Value}
use subagent_governance.Semantics.{Phase}
use subagent_governance.Contract.{Manifest, Verification, NativeParameters}
use subagent_governance.Contract.Canon.{Canon}
use subagent_governance.Contract.Records.{to_record}
use subagent_governance.Contract.Input.{contract_from_input}
use subagent_governance.Ledger.{Task, Prepared, is_option}
use subagent_governance.Lifecycle.{Outcome}
use subagent_governance.Dispatch.Claim.{
  claimed_task, claim_prepared, claim_again, claim_at, claim_task, claim_parameters_match,
  check_material, staged, expected_of,
}

module _ (canon : Canon) (verify : Manifest → Result Verification) (now : ℕ)
    (task_ref tool_use_id : Text) (tool_input : Value) where
  -- What a claim that returns has found: a prepared capability before its time, or the same call's
  -- earlier claim; and the call fits the capability.
  pub data Claimed (t u : Task) : Type 0 where
    first :
        (p : Prepared)
        → t.phase ≡ Phase.prepared
        → t.prepared ≡ some p
        → now < p.expires_at
        → claim_parameters_match t.native_interface tool_input p.expected_native_parameters
          ≡ ok true
        → u ≡ claimed_task now tool_use_id t
        → Claimed t u
    repeated :
        (p : Prepared)
        → t.phase ≡ Phase.claimed
        → t.claimed_tool_use_id ≡ some tool_use_id
        → t.prepared ≡ some p
        → claim_parameters_match t.native_interface tool_input p.expected_native_parameters
          ≡ ok true
        → u ≡ t
        → Claimed t u

expected_there :
    (o : Option Prepared) (e : NativeParameters)
    → expected_of o ≡ ok e
    → (p : Prepared) × (o ≡ some p) × (e ≡ p.expected_native_parameters)
expected_there none e h = absurd (cc)
expected_there (some p) e h = (p, refl, ground arith)

fits_of :
    (r : Result Bool) (b : Bool) {x : Unit {0}}
    → staged Stage.validation r ≡ ok b
    → guard b Error.state_conflict ≡ ok x
    → r ≡ ok true
fits_of (ok true) b h g = refl
fits_of (ok false) b h g = absurd (ground arith)
fits_of (err e) b h g = absurd (cc)

module _ (canon : Canon) (verify : Manifest → Result Verification) (now : ℕ)
    (task_ref tool_use_id : Text) (tool_input : Value) (task_id : Text) (t u : Task)
    (o : Outcome) where
  claim_prepared-Claimed :
      t.phase ≡ Phase.prepared
      → claim_prepared canon verify now task_ref tool_use_id tool_input task_id t ≡ ok (u, o)
      → Claimed canon verify now task_ref tool_use_id tool_input t u
  unfolding claim_prepared
  claim_prepared-Claimed at h =
      let (p, has, h₁) = >>=-eq-ok (or_raise t.prepared Error.state_conflict) _ h in
      let (_, early, h₂) = >>=-eq-ok (guard (ltb now p.expires_at) Error.capability_expired) _ h₁ in
      let (fits, staged_fits, h₃) =
        >>=-eq-ok
          (staged Stage.validation
            (claim_parameters_match t.native_interface tool_input p.expected_native_parameters))
          _ h₂ in
      let (_, yes_fits, h₄) = >>=-eq-ok (guard fits Error.state_conflict) _ h₃ in
      let (c, read, h₅) =
        >>=-eq-ok (staged Stage.validation (contract_from_input canon (to_record p.contract))) _
          h₄ in
      let (_, checked, h₆) =
        >>=-eq-ok
          (staged Stage.material (
            check_material canon verify now task_ref tool_use_id tool_input
              c.business_record.context.verified p))
          _ h₅ in
      Claimed.first p at (ground (arith, has)) (ground (arith, early))
        (fits_of _ fits staged_fits yes_fits) (ground (arith, h₆))

  claim_again-Claimed :
      t.phase ≡ Phase.claimed
      → claim_again canon verify now task_ref tool_use_id tool_input task_id t ≡ ok (u, o)
      → Claimed canon verify now task_ref tool_use_id tool_input t u
  unfolding claim_again
  claim_again-Claimed at h =
      let (_, mine, h₁) =
        >>=-eq-ok (guard (is_option t.claimed_tool_use_id tool_use_id) Error.state_conflict) _ h in
      let (fits, staged_fits, h₂) =
        >>=-eq-ok
          (staged Stage.validation
            (do e ← expected_of t.prepared; claim_parameters_match t.native_interface tool_input e))
          _ h₁ in
      let (_, yes_fits, h₃) = >>=-eq-ok (guard fits Error.state_conflict) _ h₂ in
      let matched = fits_of _ fits staged_fits yes_fits in
      let (e, has, match) = >>=-eq-ok (expected_of t.prepared) _ matched in
      let (p, there, same) = expected_there t.prepared e has in
      Claimed.repeated p at (ground (arith, mine)) there (rw same at match) (ground (arith, h₃))

  claim_at-Claimed :
      (p : Phase)
      → t.phase ≡ p
      → claim_at canon verify now task_ref tool_use_id tool_input p task_id t ≡ ok (u, o)
      → Claimed canon verify now task_ref tool_use_id tool_input t u
  unfolding claim_at
  claim_at-Claimed Phase.prepared e h = claim_prepared-Claimed e h
  claim_at-Claimed Phase.claimed e h = claim_again-Claimed e h
  claim_at-Claimed Phase.bound e h = absurd (cc)
  claim_at-Claimed Phase.terminal e h = absurd (cc)
  claim_at-Claimed Phase.closed e h = absurd (cc)
  claim_at-Claimed Phase.reconcile e h = absurd (cc)

  -- A claim that returns either consumed a prepared capability before its time of expiry, or found
  -- the task claimed by the same call and left it; in both cases the call matches the expected native
  -- parameters.
  pub claim_task-Claimed :
      claim_task canon verify now task_ref tool_use_id tool_input task_id t ≡ ok (u, o)
      → Claimed canon verify now task_ref tool_use_id tool_input t u
  unfolding claim_task
  claim_task-Claimed h = claim_at-Claimed t.phase refl h

module _ (canon : Canon) (verify : Manifest → Result Verification) (now later : ℕ)
    (task_ref first_call other_call : Text) (tool_input other_input : Value) (task_id : Text)
    (t u : Task) (o : Outcome) where
  pub claimed_by :
      Claimed canon verify now task_ref first_call tool_input t u
      → (u.phase ≡ Phase.claimed) × (u.claimed_tool_use_id ≡ some first_call)
  unfolding claimed_task
  claimed_by (Claimed.first p a b c d e) = ground arith
  claimed_by (Claimed.repeated p a b c d e) = ground arith

  -- Once a call has claimed a task, every claim of the task by another call is refused with a
  -- conflict, whatever its input and time.
  pub claim_task-once :
      claim_task canon verify now task_ref first_call tool_input task_id t ≡ ok (u, o)
      → first_call ≢ other_call
      → claim_task canon verify later task_ref other_call other_input task_id u
        ≡ err Error.state_conflict
  unfolding claim_task claim_at claim_again
  claim_task-once h other =
      let (at, mine) =
        claimed_by
          (claim_task-Claimed canon verify now task_ref first_call tool_input task_id t u o h) in
      let refused : text_eq first_call other_call ≡ false = ground arith in
      ground (arith, at, mine, refused)
