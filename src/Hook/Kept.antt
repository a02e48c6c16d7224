-- ===== src/Hook/Kept.antt =====
-- What a claim of governance_dispatch.py that fails leaves of the session's file, for the Hook of
-- governance_hook.py.
use subagent_governance.Base.{
  ℕ, Text, strip, length, leb, ◌&&◌, ◌≡◌, refl, ◌∙◌, arith, Bool-cases, ◌⊎◌, inl, inr, Result, ok,
  err, Error, Stage, Result-cases,
}
use subagent_governance.Json.{Value}
use subagent_governance.Contract.{Manifest, Verification}
use subagent_governance.Ledger.{Ledger}
use subagent_governance.Lifecycle.{Outcome}
use subagent_governance.State.{require_current_state_format}
use subagent_governance.Dispatch.Claim.{
  classify, claim_in_ledger, written_outcome, update_claim, with_recovery, read_again, claim_spawn,
}
use subagent_governance.Store.{
  Contents, WriteFault, Admission, Encoding, read_path, write_path, check_write, admitted,
}
use subagent_governance.Hook.Messages.{Action, Diagnosis}
use subagent_governance.Hook.Classify.{classify_failure}
use subagent_governance.Hook.{Decision, decision}

-- An error of a write is told as a claim whose commit is not known.
check_write-commit :
    (encoding : Encoding) (session_id : Text) (admission : Admission) (l : Ledger) (e : Error)
    → check_write encoding session_id admission l ≡ err e
    → classify Stage.commit e ≡ Error.claim_failure Stage.commit e
unfolding check_write admitted require_current_state_format classify
check_write-commit encoding session_id Admission.existing l e h = ground arith
check_write-commit encoding session_id Admission.new_task l e h = ground arith

module _ (encoding : Encoding) (verify : Manifest → Result Verification) (fault : WriteFault)
    (now : ℕ) (session_id task_ref tool_use_id : Text) (tool_input : Value) where
  -- An exception of the claim that leaves another file is told as an allowed call.
  abbrev Kept : Error → Contents → Contents → Type 0
  Kept e file file' = (file' ≡ file) ⊎ ((classify_failure e).action ≡ Action.allow)

  written-Kept :
      (l : Ledger) (o : Outcome) (e : Error) (file file' : Contents)
      → written_outcome encoding verify fault now session_id task_ref tool_use_id tool_input o
          (write_path encoding fault session_id Admission.existing l file)
        ≡ (err e, file')
      → Kept e file file'
  unfolding write_path classify_failure classify
  written-Kept l o e file file' h =
      elim (Result-cases (check_write encoding session_id Admission.existing l)) [
        | inl (tt, c) ↦ inr (ground (arith, c, h))
        | inr (d, c) ↦
            let commit = check_write-commit encoding session_id Admission.existing l d c in
            inr (ground (arith, c, commit, h))
      ]

  updated-Kept :
      (e : Error) (file file' : Contents)
      → update_claim encoding verify fault now session_id task_ref tool_use_id tool_input file
        ≡ (err e, file')
      → Kept e file file'
  unfolding update_claim
  updated-Kept e file file' h = elim (Result-cases (read_path encoding session_id file)) [
    | inr (d, r) ↦ inl (ground (arith, r, h))
    | inl (l, r) ↦
        elim (Result-cases
          (claim_in_ledger encoding.canon verify now task_ref tool_use_id tool_input l)) [
            | inr (d, c) ↦ inl (ground (arith, r, c, h))
            | inl ((l', o), c) ↦ written-Kept l' o e file file' (ground (arith, r, c, h))
          ]
  ]

  recovered-Kept :
      (e : Error) (file file' : Contents) (r : Result Outcome × Contents)
      → update_claim encoding verify fault now session_id task_ref tool_use_id tool_input file ≡ r
      → with_recovery encoding verify fault now session_id task_ref tool_use_id tool_input r
        ≡ (err e, file')
      → Kept e file file'
  recovered-Kept e file file' (ok o, f) u h = absurd (ground (arith, h))
  recovered-Kept e file file' (err d, f) u h =
      elim (Result-cases
        (read_again encoding verify fault now session_id task_ref tool_use_id tool_input f)) [
          | inl (o, c) ↦ absurd (ground (arith, c, h))
          | inr (d', c) ↦ updated-Kept e file file' (u ∙ ground (arith, c, h))
        ]

  claim_spawn-Kept :
      (e : Error) (file file' : Contents)
      → claim_spawn encoding verify fault now session_id task_ref tool_use_id tool_input file
        ≡ (err e, file')
      → Kept e file file'
  unfolding claim_spawn
  claim_spawn-Kept e file file' h =
      elim (Bool-cases (leb 1 (length (strip tool_use_id)) && leb (length tool_use_id) 1024)) [
        | inr bad ↦ inl (ground (arith, bad, h))
        | inl good ↦ recovered-Kept e file file' _ refl (ground (arith, good, h))
      ]

  pub decided-keeps :
      (r : Result Outcome) (d : Diagnosis) (file file' : Contents)
      → claim_spawn encoding verify fault now session_id task_ref tool_use_id tool_input file
        ≡ (r, file')
      → decision r ≡ Decision.deny d
      → file' ≡ file
  unfolding decision
  decided-keeps (ok o) d file file' h e = absurd (ground (arith, e))
  decided-keeps (err c) d file file' h e = elim (claim_spawn-Kept c file file' h) [
    | inl kept ↦ kept
    | inr passed ↦ absurd (ground (arith, passed, e))
  ]
