-- ===== src/Hook/Outcomes.antt =====
-- What a decision of the Hook of governance_hook.py says of the session's file.
use subagent_governance.Hook.Kept.{decided-keeps}
use subagent_governance.Base.{
  codes, Bool, false, ◌||◌, not, is_some, ℕ, Text, ◌&&◌, ◌≡◌, refl, sym, arith, Option, none, some,
  true, Bool-cases, ◌≢◌, inl, inr, Result, ok, err, Error, Stage, Result-cases, Option-cases,
}
use subagent_governance.Json.{Value, Fields, get}
use subagent_governance.Semantics.{Profile}
use subagent_governance.Contract.{Manifest, Verification}
use subagent_governance.Lifecycle.{Outcome}
use subagent_governance.Dispatch.Claim.{claim_spawn}
use subagent_governance.Dispatch.Committed.{HoldsClaim, claim_spawn-HoldsClaim}
use subagent_governance.Dispatch.Recorded.{HasUniqueKeys}
use subagent_governance.Store.{Contents, WriteFault, Encoding}
use subagent_governance.Hook.Messages.{Site, Action, Evidence, Diagnosis}
use subagent_governance.Hook.Classify.{classify_failure, classify_cause}
use subagent_governance.Hook.{
  refused, by_name, marker_conflict, recognize_marker, recognize_name, recognize_task_name, parsed,
  differs, or_embedded, Decision, Recognition, decision, by_action, now_of, timed_claim, claim_call,
  governed_call, at_recognition, at_input, pre_tool_use, recognize, present, unopened, open_input,
  is_spawn,
}

abbrev pub diagnosis : Decision → Diagnosis
diagnosis (Decision.allow d) = d
diagnosis (Decision.deny d) = d

classify_cause-claim : (s : Site) (e : Error) → (classify_cause s e).claim ≡ Evidence.unconfirmed
unfolding classify_cause
classify_cause-claim s e = ground arith

classify_failure-claim : (e : Error) → (classify_failure e).claim ≢ Evidence.confirmed
unfolding classify_failure
classify_failure-claim (Error.claim_failure Stage.commit e) h = cc
classify_failure-claim (Error.claim_failure Stage.state e) h =
    cc (classify_cause-claim (Site.inside Stage.state) e, h)
classify_failure-claim (Error.claim_failure Stage.validation e) h =
    cc (classify_cause-claim (Site.inside Stage.validation) e, h)
classify_failure-claim (Error.claim_failure Stage.material e) h =
    cc (classify_cause-claim (Site.inside Stage.material) e, h)
classify_failure-claim e h = cc (classify_cause-claim Site.whole_claim e, h)

by_action-diagnosis : (a : Action) (d : Diagnosis) → diagnosis (by_action a d) ≡ d
unfolding by_action
by_action-diagnosis a d = ground arith

decision_err-claim : (e : Error) → (diagnosis (decision (err e))).claim ≢ Evidence.confirmed
unfolding decision
decision_err-claim e c =
    classify_failure-claim e
      (rw (by_action-diagnosis (classify_failure e).action (classify_failure e)) at c)

named-claim :
    (p : Option (Profile × Text × Text)) (marked : Bool) (d : Decision)
    → by_name marked p ≡ Recognition.decided d
    → (diagnosis d).claim ≡ Evidence.not_attempted
unfolding by_name marker_conflict refused
named-claim none true d h = ground (arith, h)
named-claim none false d h = absurd (cc)
named-claim (some p) marked d h = absurd (cc)

task_name-claim :
    (marked : Bool) (embedded : Option Text) (v : Value) (d : Decision)
    → recognize_task_name marked embedded v ≡ Recognition.decided d
    → (diagnosis d).claim ≡ Evidence.not_attempted
unfolding recognize_task_name recognize_marker recognize_name marker_conflict open_input refused
task_name-claim true none Value.null d h = ground (arith, h)
task_name-claim true (some name) Value.null d h = named-claim (parsed (some name)) true d h
task_name-claim false embedded Value.null d h = absurd (cc)
task_name-claim marked embedded (Value.str explicit) d h =
    elim (Bool-cases (marked && not (is_some embedded) || differs explicit embedded)) [
      | inl bad ↦ ground (arith, bad, h)
      | inr good ↦
          named-claim (parsed (or_embedded explicit embedded)) marked d (ground (arith, good, h))
    ]
task_name-claim marked embedded v d h = ground (arith, h)

module _ (encoding : Encoding) (verify : Manifest → Result Verification) (fault : WriteFault)
    (opening : Result (Unit {0})) (clock : ℕ) where
  -- What the payload says of a governed call.
  pub record IsGoverned (payload : Fields) (session_id task_ref call : Text) (tool_input : Fields)
      : Type 0 where
    pub input : get (codes "tool_input") payload ≡ Value.obj tool_input
    pub reference : recognize tool_input ≡ Recognition.governed task_ref
    pub session : present (get (codes "session_id") payload) ≡ some session_id
    pub tool_use : present (get (codes "tool_use_id") payload) ≡ some call

  -- A decision without a claim leaves the file, and one with a claim follows what claim_spawn does.
  pub data Decided (payload : Fields) (d : Decision) (file file' : Contents) : Type 0 where
    untouched :
        file' ≡ file → (diagnosis d).claim ≢ Evidence.confirmed → Decided payload d file file'
    attempted :
        (now : ℕ) (session_id task_ref tool_use_id : Text) (tool_input : Fields)
        (r : Result Outcome)
        → IsGoverned payload session_id task_ref tool_use_id tool_input
        → claim_spawn encoding verify fault now session_id task_ref tool_use_id
            (Value.obj tool_input)
            file
          ≡ (r, file')
        → d ≡ decision r
        → Decided payload d file file'

  failed-Decided :
      (payload : Fields) (e : Error) (d : Decision) (file file' : Contents)
      → decision (err e) ≡ d
      → file' ≡ file
      → Decided payload d file file'
  failed-Decided payload e d file file' h k =
      Decided.untouched k λ c. decision_err-claim e (rw (sym h) at c)

  unopened-Decided :
      (payload : Fields) (e : Error) (d : Decision) (file file' : Contents)
      → by_action
          (classify_failure e).action
          (unopened encoding verify fault opening clock (classify_failure e))
        ≡ d
      → file' ≡ file
      → Decided payload d file file'
  unfolding unopened
  unopened-Decided payload e d file file' h k =
      Decided.untouched k
        λ c. cc (rw (sym h, by_action-diagnosis (classify_failure e).action _) at c)

  called-Decided :
      (payload : Fields) (session_id task_ref tool_use_id : Text) (tool_input : Fields)
      (value : Value) (d : Decision) (file file' : Contents)
      → IsGoverned payload session_id task_ref tool_use_id tool_input
      → claim_call encoding verify fault opening clock session_id task_ref tool_use_id tool_input
          value file
        ≡ (d, file')
      → Decided payload d file file'
  unfolding claim_call timed_claim
  called-Decided payload session_id task_ref tool_use_id tool_input value d file file' g h =
      elim (Result-cases opening) [
        | inr (e, c) ↦
            unopened-Decided payload e d file file' (ground (arith, c, h)) (ground (arith, c, h))
        | inl (tt, c) ↦ elim (Result-cases (now_of clock value)) [
          | inr (e, n) ↦
              failed-Decided payload e d file file' (ground (arith, c, n, h))
                (ground (arith, c, n, h))
          | inl (now, n) ↦
              Decided.attempted now session_id task_ref tool_use_id tool_input
                (claim_spawn encoding verify fault now session_id task_ref tool_use_id
                  (Value.obj tool_input) file).0
                g (ground (arith, c, n, h)) (ground (arith, c, n, h))
        ]
      ]

  governed-Decided :
      (payload tool_input : Fields) (task_ref : Text) (d : Decision) (file file' : Contents)
      → get (codes "tool_input") payload ≡ Value.obj tool_input
      → recognize tool_input ≡ Recognition.governed task_ref
      → governed_call encoding verify fault opening clock payload tool_input task_ref file
        ≡ (d, file')
      → Decided payload d file file'
  unfolding governed_call refused
  governed-Decided payload tool_input task_ref d file file' i e h =
      elim (Option-cases (present (get (codes "session_id") payload))) [
        | inl s ↦ Decided.untouched (ground (arith, s, h)) (λ c. absurd (ground (arith, s, h, c)))
        | inr (session_id, s) ↦ elim (Option-cases (present (get (codes "tool_use_id") payload))) [
          | inl u ↦
              Decided.untouched (ground (arith, s, u, h)) (λ c. absurd (ground (arith, s, u, h, c)))
          | inr (tool_use_id, u) ↦
              called-Decided payload session_id task_ref tool_use_id tool_input
                (get (codes "now") payload) d file file'
                (record { input = i; reference = e; session = s; tool_use = u })
                (ground (arith, s, u, h))
        ]
      ]

  recognized-Decided :
      (r : Recognition) (payload tool_input : Fields) (d : Decision) (file file' : Contents)
      → get (codes "tool_input") payload ≡ Value.obj tool_input
      → recognize tool_input ≡ r
      → at_recognition encoding verify fault opening clock r payload tool_input file
        ≡ (some d, file')
      → Decided payload d file file'
  unfolding at_recognition recognize
  recognized-Decided Recognition.ungoverned payload tool_input d file file' i e h = absurd (cc)
  recognized-Decided (Recognition.decided d') payload tool_input d file file' i e h =
      let claim = task_name-claim _ _ _ d' e in
      Decided.untouched (ground (arith, h)) (λ c. absurd (ground (arith, h, c, claim)))
  recognized-Decided (Recognition.governed task_ref) payload tool_input d file file' i e h =
      governed-Decided payload tool_input task_ref d file file' i e (ground (arith, h))

  input-Decided :
      (v : Value) (payload : Fields) (d : Decision) (file file' : Contents)
      → get (codes "tool_input") payload ≡ v
      → at_input encoding verify fault opening clock v payload file ≡ (some d, file')
      → Decided payload d file file'
  unfolding at_input open_input refused
  input-Decided (Value.obj tool_input) payload d file file' i h =
      recognized-Decided (recognize tool_input) payload tool_input d file file' i refl h
  input-Decided v payload d file file' i h =
      Decided.untouched (ground (arith, h)) (λ c. absurd (ground (arith, h, c)))

  pre_tool_use-Decided :
      (payload : Fields) (d : Decision) (file file' : Contents)
      → pre_tool_use encoding verify fault opening clock payload file ≡ (some d, file')
      → Decided payload d file file'
  unfolding pre_tool_use
  pre_tool_use-Decided payload d file file' h =
      elim (Bool-cases (is_spawn (get (codes "tool_name") payload))) [
        | inr other ↦ absurd (ground (arith, other, h))
        | inl spawn ↦
            input-Decided (get (codes "tool_input") payload) payload d file file' refl
              (ground (arith, spawn, h))
      ]

  -- A call that the Hook denies leaves the session's file as it was.
  pub pre_tool_use-denied :
      (payload : Fields) (d : Diagnosis) (file file' : Contents)
      → pre_tool_use encoding verify fault opening clock payload file
        ≡ (some (Decision.deny d), file')
      → file' ≡ file
  pre_tool_use-denied payload d file file' h =
      elim (pre_tool_use-Decided payload (Decision.deny d) file file' h) [
        | Decided.untouched kept other ↦ kept
        | Decided.attempted now session_id task_ref call tool_input r g e k ↦
            decided-keeps encoding verify fault now session_id task_ref call (Value.obj tool_input)
              r d file file' e (sym k)
      ]

  -- Where the Hook confirms a claim, the payload names a session, a call and the reference of a task,
  -- and the session's file reads as a ledger in which this call has claimed the one task of the
  -- reference, where the keys of the ledger were different.
  pub pre_tool_use-confirmed :
      (payload : Fields) (d : Decision) (file file' : Contents)
      → HasUniqueKeys file
      → pre_tool_use encoding verify fault opening clock payload file ≡ (some d, file')
      → (diagnosis d).claim ≡ Evidence.confirmed
      → (now : ℕ) × (session_id : Text) × (task_ref : Text) × (call : Text) × (tool_input : Fields)
        × IsGoverned payload session_id task_ref call tool_input
        × HoldsClaim encoding verify fault now session_id task_ref call (Value.obj tool_input) file'
  pre_tool_use-confirmed payload d file file' unique h c =
      elim (pre_tool_use-Decided payload d file file' h) [
        | Decided.untouched kept other ↦ absurd (other c)
        | Decided.attempted now session_id task_ref call tool_input (ok o) g e k ↦ (
          now,
          session_id,
          task_ref,
          call,
          tool_input,
          g,
          claim_spawn-HoldsClaim encoding verify fault now session_id task_ref call
              (Value.obj tool_input) o file file' unique e,
        )
        | Decided.attempted now session_id task_ref call tool_input (err x) g e k ↦
            absurd (decision_err-claim x (rw k at c))
      ]
