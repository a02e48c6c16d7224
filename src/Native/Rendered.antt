-- ===== src/Native/Rendered.antt =====
-- A native call rendered by governance_native_adapter.py is the call that a claim of
-- governance_dispatch.py expects.
use mathlib.Core.Path.{subst}
use subagent_governance.Base.{
  Text, text_eq, text_eq_complete, codes, ◌≡◌, refl, arith, Option, none, some, Bool, Bool-cases,
  text_eq_sound, ◌||◌, true, false, ok, Error, ◌⊎◌, inl, inr, guard, >>=-eq-ok, Text-discrete,
  if◌then◌else◌,
}
use subagent_governance.Json.{Value, get, get_field, fields, unknown_keys}
use subagent_governance.Semantics.{NativeInterface}
use subagent_governance.Contract.{NativeParameters}
use subagent_governance.Identity.{task_name_from_message}
use subagent_governance.Native.{
  validate_native_spawn, render_native_spawn, native_entries, normalize_native_spawn,
  fork_turns_valid,
}
use subagent_governance.Dispatch.Claim.{claim_parameters_match, same_parameters, same_option}

text_eq_refl : (s : Text) → text_eq s s ≡ true
text_eq_refl s = text_eq_complete s s refl

same_option_refl : (o : Option Text) → same_option o o ≡ true
same_option_refl none = refl
same_option_refl (some s) = text_eq_refl s

-- What the message must say of the name: nothing or the name, where the call carries the name, and
-- the name where only the message carries it.
abbrev pub Named : NativeInterface → Option Text → Text → Type 0
Named NativeInterface.collaboration_turns none message = ⊥
Named NativeInterface.collaboration_turns (some name) message =
    (task_name_from_message message ≡ none) ⊎ (task_name_from_message message ≡ some name)
Named NativeInterface.fork_context name message = task_name_from_message message ≡ name

abbrev parameters : Option Text → Text → Text → Option Text → Option Text → NativeParameters
parameters name message turns model effort = record {
  task_name = name;
  message = message;
  fork_turns = turns;
  model = model;
  reasoning_effort = effort;
}

abbrev IsContext : Text → Type 0
IsContext turns = (turns ≡ codes "none") ⊎ (turns ≡ codes "all")

module _ (message turns : Text) where
  turns-match :
      (name : Text) (model effort : Option Text)
      → Named NativeInterface.collaboration_turns (some name) message
      → fork_turns_valid turns ≡ true
      → claim_parameters_match NativeInterface.collaboration_turns
          (Value.obj (
            fields (
              native_entries NativeInterface.collaboration_turns
                (parameters (some name) message turns model effort))))
          (parameters (some name) message turns model effort)
        ≡ ok true
  unfolding claim_parameters_match same_parameters normalize_native_spawn native_entries fields
      unknown_keys get get_field Text-discrete
  turns-match name none none named valid =
      ground (arith, text_eq_refl name, text_eq_refl turns, named)
  turns-match name (some model) none named valid =
      ground (arith, text_eq_refl name, text_eq_refl turns, text_eq_refl model, named)
  turns-match name none (some effort) named valid =
      ground (arith, text_eq_refl name, text_eq_refl turns, text_eq_refl effort, named)
  turns-match name (some model) (some effort) named valid =
      ground (
        arith,
        text_eq_refl name,
        text_eq_refl turns,
        text_eq_refl model,
        text_eq_refl effort,
        named,
      )

  context_turns :
      IsContext turns
      → text_eq (if text_eq turns (codes "all") then codes "all" else codes "none") turns ≡ true
  unfolding Text-discrete
  context_turns (inl e) = rw e refl
  context_turns (inr e) = rw e refl

  context-match :
      (name : Option Text) (model effort : Option Text)
      → task_name_from_message message ≡ name
      → IsContext turns
      → claim_parameters_match NativeInterface.fork_context
          (Value.obj (
            fields (
              native_entries NativeInterface.fork_context
                (parameters name message turns model effort))))
          (parameters name message turns model effort)
        ≡ ok true
  unfolding claim_parameters_match same_parameters normalize_native_spawn native_entries fields
      unknown_keys get get_field Text-discrete
  context-match name none none named valid =
      ground (arith, same_option_refl name, context_turns valid, named)
  context-match name (some model) none named valid =
      ground (arith, same_option_refl name, context_turns valid, text_eq_refl model, named)
  context-match name none (some effort) named valid =
      ground (arith, same_option_refl name, context_turns valid, text_eq_refl effort, named)
  context-match name (some model) (some effort) named valid = ground (
    arith,
    same_option_refl name,
    context_turns valid,
    text_eq_refl model,
    text_eq_refl effort,
    named,
  )

guard-true : (b : Bool) (e : Error) {u : Unit {0}} → guard b e ≡ ok u → b ≡ true
guard-true true e h = refl
guard-true false e h = absurd (cc)

IsContext-turns_of :
    (turns : Text)
    → (text_eq turns (codes "none") || text_eq turns (codes "all")) ≡ true
    → IsContext turns
IsContext-turns_of turns h = elim (Bool-cases (text_eq turns (codes "none"))) [
  | inl e ↦ inl (text_eq_sound _ _ e)
  | inr e ↦ inr (text_eq_sound _ _ (ground (arith, e, h)))
]

-- The native call that is rendered from a capability's expected parameters is one that a claim of
-- this capability finds to match them, on both interfaces, where the message names the task as it
-- is expected: on the first interface the name is given, and the message has it or none; on the
-- second the name is the message's.
pub render_native_spawn-match :
    (interface : NativeInterface) (name : Option Text) (message turns : Text)
    (model effort : Option Text) (v : Value)
    → Named interface name message
    → render_native_spawn interface (parameters name message turns model effort) ≡ ok v
    → claim_parameters_match interface v (parameters name message turns model effort) ≡ ok true
unfolding render_native_spawn validate_native_spawn
render_native_spawn-match NativeInterface.collaboration_turns none message turns model effort v
      named h =
    absurd named
render_native_spawn-match NativeInterface.collaboration_turns (some name) message turns model effort
      v named h =
    let (_, checks, e) =
      >>=-eq-ok (validate_native_spawn NativeInterface.collaboration_turns turns model effort) _
        h in
    let (_, valid, more) = >>=-eq-ok (guard (fork_turns_valid turns) Error.value_error) _ checks in
    subst
      (λ w.
        claim_parameters_match NativeInterface.collaboration_turns w
          (parameters (some name) message turns model effort)
        ≡ ok true)
      (ground (arith, e))
      (turns-match message turns name model effort named
        (guard-true (fork_turns_valid turns) _ valid))
render_native_spawn-match NativeInterface.fork_context name message turns model effort v named h =
    let (_, checks, e) =
      >>=-eq-ok (validate_native_spawn NativeInterface.fork_context turns model effort) _ h in
    let (_, valid, more) = >>=-eq-ok (guard (fork_turns_valid turns) Error.value_error) _ checks in
    subst
      (λ w.
        claim_parameters_match NativeInterface.fork_context w
          (parameters name message turns model effort)
        ≡ ok true)
      (ground (arith, e))
      (context-match message turns name model effort named
        (IsContext-turns_of turns (guard-true _ _ more)))
