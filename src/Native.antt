-- ===== src/Native.antt =====
-- scripts/governance_native_adapter.py: the two native spawn interfaces.
pub mod Rendered
use subagent_governance.Base.{
  Text, codes, text_eq, is_digit, Option, none, some, Bool, true, false, List, [], ◌∷◌, ◌&&◌, ◌||◌,
  not, if◌then◌else◌, leb, ◌==◌, length, all, Result, ok, err, Error, guard, or_raise, ◌>>=◌, ◌>>◌,
}
use subagent_governance.Json.{Value, Fields, fields, get, get_field, unknown_keys}
use subagent_governance.Semantics.{NativeInterface}
use subagent_governance.Contract.{NativeParameters}
use subagent_governance.Identity.{task_name_from_message}

first_nonzero : Text → Bool
first_nonzero [] = false
first_nonzero (c ∷ s) = not (c == b'0')

-- The test of `_fork_turns`: none, all, or an ASCII numeral of at most 12 digits that does not begin
-- with 0.
unfoldable pub fork_turns_valid : Text → Bool
unfolding first_nonzero
fork_turns_valid s =
    text_eq s (codes "none")
    || (text_eq s (codes "all") || (all is_digit s && (first_nonzero s && leb (length s) 12)))

abbrev is_given : Option Text → Bool
is_given none = false
is_given (some s) = true

abbrev is_turns : NativeInterface → Bool
is_turns NativeInterface.collaboration_turns = true
is_turns NativeInterface.fork_context = false

-- validate_native_spawn, on the three fields that it reads
unfoldable pub validate_native_spawn :
    NativeInterface → Text → Option Text → Option Text → Result (Unit {0})
validate_native_spawn interface turns model effort = do
  guard (fork_turns_valid turns) Error.value_error
  guard
      (not (
        is_turns interface && (text_eq turns (codes "all") && (is_given model || is_given effort))))
      Error.value_error
  guard (is_turns interface || (text_eq turns (codes "none") || text_eq turns (codes "all")))
      Error.value_error

-- A key whose value is None is left out.
abbrev optional : Text → Option Text → List (Text × Value) → List (Text × Value)
optional k none kvs = kvs
optional k (some s) kvs = (k, Value.str s) ∷ kvs

unfoldable pub overrides : Option Text → Option Text → List (Text × Value)
overrides model effort =
    optional (codes "model") model (optional (codes "reasoning_effort") effort [])

unfoldable pub native_entries : NativeInterface → NativeParameters → List (Text × Value)
unfolding overrides
native_entries NativeInterface.collaboration_turns e =
    (codes "message", Value.str e.message)
    ∷ optional (codes "task_name") e.task_name
        ((codes "fork_turns", Value.str e.fork_turns) ∷ overrides e.model e.reasoning_effort)
native_entries NativeInterface.fork_context e =
    (codes "message", Value.str e.message)
    ∷ (codes "fork_context", Value.bool (text_eq e.fork_turns (codes "all")))
    ∷ overrides e.model e.reasoning_effort

-- render_native_spawn
unfoldable pub render_native_spawn : NativeInterface → NativeParameters → Result Value
unfolding native_entries
render_native_spawn interface e = do
  validate_native_spawn interface e.fork_turns e.model e.reasoning_effort
  ok (Value.obj (fields (native_entries interface e)))

-- The comparable form of a native call: model and reasoning_effort are whatever was given.
pub record NormalSpawn : Type 0 where
  pub task_name : Option Text
  pub message : Text
  pub fork_turns : Text
  pub model : Value
  pub reasoning_effort : Value

unfoldable pub turn_fields : List Text
turn_fields =
    codes "task_name"
    ∷ codes "message"
    ∷ codes "fork_turns"
    ∷ codes "model"
    ∷ codes "reasoning_effort"
    ∷ []

unfoldable pub context_fields : List Text
context_fields =
    codes "message" ∷ codes "fork_context" ∷ codes "model" ∷ codes "reasoning_effort" ∷ []

abbrev pub as_text : Value → Option Text
as_text (Value.str s) = some s
as_text _ = none

abbrev is_null_entry : Option Value → Bool
is_null_entry (some Value.null) = true
is_null_entry _ = false

abbrev same_name : Option Text → Text → Bool
same_name none name = true
same_name (some embedded) name = text_eq embedded name

-- `tool_input.get("fork_turns", "all")`, which must be a text of the right form
unfoldable pub turns_of : Option Value → Result Text
turns_of none = ok (codes "all")
turns_of (some (Value.str s)) = do guard (fork_turns_valid s) Error.native_mismatch; ok s
turns_of (some _) = err Error.native_mismatch

-- `tool_input.get("fork_context", False)`, which must be a Boolean
unfoldable pub turns_of_context : Option Value → Result Text
turns_of_context none = ok (codes "none")
turns_of_context (some (Value.bool b)) = ok (if b then codes "all" else codes "none")
turns_of_context (some _) = err Error.native_mismatch

abbrev fields_of : NativeInterface → List Text
fields_of NativeInterface.collaboration_turns = turn_fields
fields_of NativeInterface.fork_context = context_fields

unfoldable pub normal : Fields → Option Text → Text → Text → NormalSpawn
unfolding get
normal fs task_name message turns = record {
  task_name = task_name;
  message = message;
  fork_turns = turns;
  model = get (codes "model") fs;
  reasoning_effort = get (codes "reasoning_effort") fs;
}

unfoldable pub normalize_at : NativeInterface → Text → Fields → Result NormalSpawn
unfolding turns_of turns_of_context normal get get_field
normalize_at NativeInterface.collaboration_turns message fs = do
  task_name ← or_raise (as_text (get (codes "task_name") fs)) Error.native_unavailable
  guard (same_name (task_name_from_message message) task_name) Error.native_mismatch
  turns ← turns_of (get_field (codes "fork_turns") fs)
  ok (normal fs (some task_name) message turns)
normalize_at NativeInterface.fork_context message fs = do
  turns ← turns_of_context (get_field (codes "fork_context") fs)
  ok (normal fs (task_name_from_message message) message turns)

-- normalize_native_spawn
unfoldable pub normalize_native_spawn : NativeInterface → Value → Result NormalSpawn
unfolding normalize_at turn_fields context_fields unknown_keys get get_field
normalize_native_spawn interface (Value.obj fs) = do
  guard (leb (length (unknown_keys (fields_of interface) fs)) 0) Error.native_unavailable
  message ← or_raise (as_text (get (codes "message") fs)) Error.native_unavailable
  guard (not (is_null_entry (get_field (codes "model") fs))) Error.native_unavailable
  guard (not (is_null_entry (get_field (codes "reasoning_effort") fs))) Error.native_unavailable
  normalize_at interface message fs
normalize_native_spawn interface _ = err Error.native_unavailable
