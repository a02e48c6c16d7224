-- ===== src/Tests/Names.antt =====
-- References and native calls on concrete texts.
use mathlib.Core.Path.{subst}
use subagent_governance.Storage.Names.{safe_filename, file_prefix, strip_front, strip_end}
use subagent_governance.Storage.Named.{IsName, safe_filename-IsName}
use subagent_governance.Base.{
  insert, ◌++◌, is_text, lookup, Result, err, Error, codes, take, refl, ◌≡◌, arith, none, some,
  true, false, ok, [], ◌∷◌, inl, Text-discrete, ℕ_discrete, strip, all, is_hex, length, ◌≤◌,
}
use subagent_governance.Json.{mem_text, Value, fields}
use subagent_governance.Semantics.{NativeInterface}
use subagent_governance.Identity.{
  collapse, build_task_name, match_task_name, normalize_semantic_name, Hashing, select_task_ref,
  is_task_ref, task_name_from_message,
}
use subagent_governance.Identity.Fresh.{IsHex, select_task_ref-free}
use subagent_governance.Native.{validate_native_spawn, render_native_spawn, fork_turns_valid}
use subagent_governance.Native.Rendered.{render_native_spawn-match}
use subagent_governance.Dispatch.Claim.{claim_parameters_match}
use subagent_governance.Contract.{Manifest, Verification}
use subagent_governance.Ledger.{Ledger}
use subagent_governance.Retention.{prune_closed_tasks}
use subagent_governance.Protocol.{Preparation, initial_task_record, pick, prepare_in_ledger}
use subagent_governance.Rendering.{spawn_args}
use subagent_governance.Inputs.{operation_inputs}
use subagent_governance.Protocol.Fresh.{IsPrepared, prepare_in_ledger-IsPrepared}
use subagent_governance.Tests.Data.{session, encoding, capability, digest, id, ref, parameters}

hashing : Hashing
hashing = record { lower = λ s. s; sha256_hex = λ s. some digest }

hashing-IsHex : IsHex hashing
unfolding hashing
hashing-IsHex s h e =
    let same : digest ≡ h = cc in
    subst (λ x. (all is_hex x ≡ true) × (20 ≤ length x)) same (refl, omega arith)

-- The short reference is taken: the long one is selected.
select_task_ref-free_example :
    (mem_text (take 20 digest) (ref ∷ []) ≡ false) × (is_task_ref (take 20 digest) ≡ true)
unfolding select_task_ref hashing Text-discrete ℕ_discrete strip
select_task_ref-free_example =
    select_task_ref-free hashing id (take 20 digest) (ref ∷ []) hashing-IsHex refl

rendered : Value
unfolding fields
rendered = Value.obj (
    fields (
      (codes "message", Value.str (codes "m"))
      ∷ (codes "task_name", Value.str (codes "sg_standard_a_t_0123456789ab"))
      ∷ (codes "fork_turns", Value.str (codes "none"))
      ∷ []))

render_native_spawn-match_example :
    claim_parameters_match NativeInterface.collaboration_turns rendered parameters ≡ ok true
unfolding render_native_spawn rendered fields Text-discrete ℕ_discrete task_name_from_message
    validate_native_spawn fork_turns_valid
render_native_spawn-match_example =
    render_native_spawn-match NativeInterface.collaboration_turns
      (some (codes "sg_standard_a_t_0123456789ab")) (codes "m") (codes "none") none none rendered
      (inl refl) refl

empty_ledger : Ledger
empty_ledger = record { session_id = session; tasks = [] }

no_files : Manifest → Result Verification
no_files m = err Error.context_verification

blank : Preparation
blank = record {
  task_id = [];
  pruned_task_ids = [];
  task_ref = [];
  expires_at = 0;
  task_name = [];
  contract = capability.contract;
  contract_digest = [];
  context_verification = none;
  spawn_args = Value.null;
  operation_inputs = [];
  warning = false;
}

or_blank : Result (Ledger × Preparation) → Ledger × Preparation
or_blank (ok r) = r
or_blank (err e) = (empty_ledger, blank)

prepared_result : Ledger × Preparation
unfolding or_blank
prepared_result = or_blank (
    prepare_in_ledger encoding hashing no_files NativeInterface.collaboration_turns 10
      capability.contract none (id ∷ []) empty_ledger)

prepare_in_ledger-IsPrepared_example :
    IsPrepared capability.contract 10 empty_ledger prepared_result.0 prepared_result.1
unfolding prepared_result or_blank prepare_in_ledger empty_ledger hashing no_files
    initial_task_record prune_closed_tasks insert Text-discrete ℕ_discrete pick is_text lookup
    select_task_ref build_task_name match_task_name normalize_semantic_name spawn_args
    render_native_spawn validate_native_spawn fork_turns_valid operation_inputs
prepare_in_ledger-IsPrepared_example =
    prepare_in_ledger-IsPrepared encoding hashing no_files NativeInterface.collaboration_turns 10
      capability.contract none hashing-IsHex (id ∷ []) empty_ledger prepared_result.0
      prepared_result.1 tt refl

-- Characters that a name may not have become an underscore.
safe_filename-IsName_example :
    IsName (codes "a_b-" ++ take 16 digest) × (length (codes "a_b-" ++ take 16 digest) ≤ 81)
unfolding safe_filename file_prefix collapse strip_front strip_end hashing
safe_filename-IsName_example =
    safe_filename-IsName hashing hashing-IsHex (codes "../a /b") (codes "a_b-" ++ take 16 digest)
      refl
