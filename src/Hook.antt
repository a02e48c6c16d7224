-- ===== src/Hook.antt =====
-- scripts/governance_hook.py: the decision before a native spawn call. The summaries at the start of
-- a session stand in Hook/Summary.
pub mod Kept
pub mod Messages
pub mod Classify
pub mod Conflicts
pub mod Outcomes
pub mod Summary
pub mod Events
pub mod Returning
use subagent_governance.Base.{
  ℕ, Text, codes, strip, text_eq, starts_with, Option, none, some, Bool, true, false, List, [], ◌∷◌,
  ◌&&◌, ◌||◌, not, is_some, if◌then◌else◌, leb, length, take, Result, ok, err, Error, ◌>>=◌,
}
use subagent_governance.Json.{Value, Fields, fields, get, mem_text, is_word}
use subagent_governance.Semantics.{Profile, session_summary_context_limit}
use subagent_governance.Contract.{Manifest, Verification}
use subagent_governance.Identity.{message_prefix, parse_task_name, task_name_from_message}
use subagent_governance.Lifecycle.{Verdict, Outcome}
use subagent_governance.Dispatch.Claim.{claim_spawn}
use subagent_governance.Store.{Contents, WriteFault, Encoding}
use subagent_governance.Hook.Messages.{Code, Site, Evidence, Action, Diagnosis, diagnostic}
use subagent_governance.Hook.Classify.{classify_failure}

-- NATIVE_SPAWN_TOOL_NAMES
unfoldable pub native_spawn_tool_names : List Text
native_spawn_tool_names =
    codes "spawn_agent"
    ∷ codes "multi_agent_v1.spawn_agent"
    ∷ codes "multi_agent_v1__spawn_agent"
    ∷ codes "multi_agent_v1spawn_agent"
    ∷ codes "collaboration.spawn_agent"
    ∷ codes "collaborationspawn_agent"
    ∷ []

-- `tool_kind(…) == "spawn"`. A value that is no text is turned into one that is no name of a tool.
unfoldable pub is_spawn : Value → Bool
unfolding native_spawn_tool_names
is_spawn (Value.str name) = mem_text name native_spawn_tool_names
is_spawn _ = false

-- What the Hook decides: `_allow` with its context, and `_deny`.
pub data Decision : Type 0 where
  allow deny : Diagnosis → Decision

reply : Text → List (Text × Value) → Value
reply word more = Value.obj (
    fields (
      (
        codes "hookSpecificOutput",
        Value.obj (
            fields (
              (codes "hookEventName", Value.str (codes "PreToolUse"))
              ∷ (codes "permissionDecision", Value.str word)
              ∷ more)),
      )
      ∷ []))

-- The dictionary that `_allow` or `_deny` makes.
unfoldable pub reply_of : Decision → Value
unfolding reply diagnostic
reply_of (Decision.allow d) = reply (codes "allow") (
    (codes "additionalContext", Value.str (take session_summary_context_limit (diagnostic d))) ∷ [])
reply_of (Decision.deny d) = reply (codes "deny") (
    (
      codes "permissionDecisionReason",
      Value.str (take session_summary_context_limit (diagnostic d)),
    )
    ∷ [])

refused : Code → Site → Action → Diagnosis
refused code stage action = record {
  code = code;
  stage = stage;
  claim = Evidence.not_attempted;
  action = action;
}

unfoldable pub open_input : Decision
unfolding refused
open_input = Decision.allow (refused Code.input_unavailable Site.recognition Action.allow)

unfoldable pub marker_conflict : Decision
unfolding refused
marker_conflict = Decision.deny (refused Code.marker_conflict Site.recognition Action.deny)

-- What the recognition of a call ends with: it is not governed, it is decided at once, or it names
-- the reference of a task.
pub data Recognition : Type 0 where
  ungoverned : Recognition
  decided : Decision → Recognition
  governed : Text → Recognition

message_text : Value → Option Text
message_text (Value.str s) = some s
message_text _ = none

embedded_name : Option Text → Option Text
unfolding task_name_from_message
embedded_name none = none
embedded_name (some message) = task_name_from_message message

has_marker : Option Text → Bool
has_marker none = false
has_marker (some message) = starts_with message message_prefix

parsed : Option Text → Option (Profile × Text × Text)
parsed none = none
parsed (some name) = parse_task_name name

-- The call of a task name: `explicit_name or embedded_name`, parsed.
by_name : Bool → Option (Profile × Text × Text) → Recognition
unfolding marker_conflict
by_name marked (some (profile, semantic_name, task_ref)) = Recognition.governed task_ref
by_name true none = Recognition.decided marker_conflict
by_name false none = Recognition.ungoverned

differs : Text → Option Text → Bool
differs explicit none = false
differs explicit (some embedded) = not (text_eq explicit embedded)

or_embedded : Text → Option Text → Option Text
or_embedded [] embedded = embedded
or_embedded (c ∷ s) embedded = some (c ∷ s)

-- A task_name that is a text, beside the message's.
recognize_name : Text → Bool → Option Text → Recognition
unfolding marker_conflict parsed by_name differs or_embedded
recognize_name explicit marked embedded =
    if marked && not (is_some embedded) || differs explicit embedded
    then Recognition.decided marker_conflict
    else by_name marked (parsed (or_embedded explicit embedded))

recognize_marker : Bool → Option Text → Recognition
unfolding marker_conflict parsed by_name
recognize_marker false embedded = Recognition.ungoverned
recognize_marker true none = Recognition.decided marker_conflict
recognize_marker true (some name) = by_name true (parsed (some name))

-- The task_name of the call is missing, a text or something else.
recognize_task_name : Bool → Option Text → Value → Recognition
unfolding open_input recognize_name recognize_marker
recognize_task_name marked embedded Value.null = recognize_marker marked embedded
recognize_task_name marked embedded (Value.str explicit) = recognize_name explicit marked embedded
recognize_task_name marked embedded _ = Recognition.decided open_input

-- The tests on `task_name`, `message` and the marker, up to the parsed name.
unfoldable pub recognize : Fields → Recognition
unfolding get message_text embedded_name has_marker recognize_task_name
recognize tool_input =
    let message = message_text (get (codes "message") tool_input) in
    recognize_task_name (has_marker message) (embedded_name message)
      (get (codes "task_name") tool_input)

-- `isinstance(value, str) and value.strip()`
unfoldable pub present : Value → Option Text
present (Value.str s) = if leb 1 (length (strip s)) then some s else none
present _ = none

-- `_now(payload.get("now"))`, where the clock is read if there is none.
unfoldable pub now_of : ℕ → Value → Result ℕ
now_of clock Value.null = ok clock
now_of clock (Value.num n) = ok n
now_of clock _ = err Error.value_error

result_code : Verdict → Code
result_code Verdict.already_claimed = Code.already_claimed
result_code Verdict.claimed_after_write_error = Code.claimed_after_write_error
result_code _ = Code.claimed

by_action : Action → Diagnosis → Decision
by_action Action.deny d = Decision.deny d
by_action _ d = Decision.allow d

-- The end of `_pre`: what the claim returned, or what its exception is classified as.
unfoldable pub decision : Result Outcome → Decision
unfolding result_code by_action classify_failure
decision (ok o) = Decision.allow (record {
  code = result_code o.result;
  stage = Site.whole_claim;
  claim = Evidence.confirmed;
  action = Action.claimed;
})
decision (err e) = by_action (classify_failure e).action (classify_failure e)

module _ (encoding : Encoding) (verify : Manifest → Result Verification) (fault : WriteFault)
    (opening : Result (Unit {0})) (clock : ℕ) where
  -- The claim of a call whose session and tool_use_id are there. `opening` is how the store opens.
  timed_claim : Text → Text → Text → Fields → Value → Contents → Result Outcome × Contents
  timed_claim session_id task_ref tool_use_id tool_input now file = elim (now_of clock now) [
    | err e ↦ (err e, file)
    | ok at ↦
        claim_spawn encoding verify fault at session_id task_ref tool_use_id (Value.obj tool_input)
          file
  ]

  -- A store that does not open is no attempt.
  unopened : Diagnosis → Diagnosis
  unopened d = record d { stage = Site.state_init; claim = Evidence.not_attempted }

  unfoldable pub claim_call : Text → Text → Text → Fields → Value → Contents → Decision × Contents
  unfolding timed_claim now_of unopened decision by_action
  claim_call session_id task_ref tool_use_id tool_input now file = elim opening [
    | err e ↦ (by_action (classify_failure e).action (unopened (classify_failure e)), file)
    | ok _ ↦
        let (r, file') = timed_claim session_id task_ref tool_use_id tool_input now file in
        (decision r, file')
  ]

  -- `_pre` from the recognised reference on.
  governed_call : Fields → Fields → Text → Contents → Decision × Contents
  unfolding get present refused claim_call
  governed_call payload tool_input task_ref file =
      elim (present (get (codes "session_id") payload)) [
        | none ↦
            (Decision.allow (refused Code.session_unavailable Site.identity Action.allow), file)
        | some session_id ↦ elim (present (get (codes "tool_use_id") payload)) [
          | none ↦
              (Decision.allow (refused Code.call_id_unavailable Site.identity Action.allow), file)
          | some tool_use_id ↦
              claim_call session_id task_ref tool_use_id tool_input (get (codes "now") payload) file
        ]
      ]

  abbrev some_decision : Decision × Contents → Option Decision × Contents
  some_decision (d, file) = (some d, file)

  at_recognition : Recognition → Fields → Fields → Contents → Option Decision × Contents
  unfolding governed_call
  at_recognition Recognition.ungoverned payload tool_input file = (none, file)
  at_recognition (Recognition.decided d) payload tool_input file = (some d, file)
  at_recognition (Recognition.governed task_ref) payload tool_input file =
      some_decision (governed_call payload tool_input task_ref file)

  at_input : Value → Fields → Contents → Option Decision × Contents
  unfolding recognize at_recognition open_input
  at_input (Value.obj tool_input) payload file =
      at_recognition (recognize tool_input) payload tool_input file
  at_input _ payload file = (some open_input, file)

  -- `_pre`
  unfoldable pub pre_tool_use : Fields → Contents → Option Decision × Contents
  unfolding is_spawn at_input get
  pre_tool_use payload file =
      if is_spawn (get (codes "tool_name") payload)
      then at_input (get (codes "tool_input") payload) payload file
      else (none, file)
