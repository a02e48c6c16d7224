-- ===== src/Contract/Input.antt =====
-- contract_from_input, the digests and validate_contract_summary of
-- scripts/governance_contracts.py.
use subagent_governance.Base.{
  Text, codes, text_eq, none, List, [], if◌then◌else◌, leb, length, Result, err, Error, guard,
  or_raise, ◌>>=◌, ◌>>◌,
}
use subagent_governance.Json.{Value, Items, Fields, unknown_keys}
use subagent_governance.Contract.{Business, TaskContract}
use subagent_governance.Contract.Canon.{Canon}
use subagent_governance.Contract.Issues.{Issue}
use subagent_governance.Contract.Checks.{contract_fields, validate_task_contract}
use subagent_governance.Contract.Read.{contract as contract_of}
use subagent_governance.Contract.Records.{to_record, business_value, spawn_record}

-- `d.setdefault(k, v)`
unfoldable pub set_default : Text → Value → Fields → Fields
set_default k v Fields.end = Fields.field k v Fields.end
set_default k v (Fields.field j w fs) =
    if text_eq j k then Fields.field j w fs else Fields.field j w (set_default k v fs)

-- The defaults of a nested dictionary; any other value is left as it is.
abbrev nested : (Fields → Fields) → Value → Value
nested f (Value.obj fs) = Value.obj (f fs)
nested f v = v

adjust : Text → (Value → Value) → Fields → Fields
adjust k f Fields.end = Fields.end
adjust k f (Fields.field j w fs) =
    if text_eq j k then Fields.field j (f w) fs else Fields.field j w (adjust k f fs)

-- The chain of setdefault calls of contract_from_input.
unfoldable pub with_defaults : Fields → Fields
unfolding set_default adjust
with_defaults fs =
    let empty = Value.arr Items.nil in
    let top = set_default (codes "spawn") (Value.obj Fields.end) (
      set_default (codes "context") (Value.obj Fields.end) (
        set_default (codes "evidence") empty (
          set_default (codes "forbidden_scope") empty
            (set_default (codes "profile") (Value.str (codes "standard")) fs)))) in
    adjust (codes "spawn")
      (nested λ c. set_default (codes "reasoning_effort") Value.null (
        set_default (codes "model") Value.null
          (set_default (codes "fork_turns") (Value.str (codes "none")) c)))
      (adjust (codes "context")
        (nested λ c.
          set_default (codes "verified") Value.null
            (set_default (codes "paths") empty (set_default (codes "summary") (Value.str []) c)))
        top)

module _ (canon : Canon) where
  -- A list of issues raises ValueError.
  unfoldable pub require_no_issues : Result (List Issue) → Result (Unit {0})
  require_no_issues r = do found ← r; guard (leb (length found) 0) Error.value_error

  -- contract_from_input
  unfoldable pub contract_from_input : Value → Result TaskContract
  unfolding require_no_issues with_defaults contract_fields unknown_keys
  contract_from_input (Value.obj raw) = do
    guard (leb (length (unknown_keys contract_fields raw)) 0) Error.value_error
    let full = with_defaults raw
    require_no_issues (validate_task_contract canon (Value.obj full))
    or_raise (contract_of full) Error.type_error
  contract_from_input _ = err Error.value_error

  -- contract_summary_digest, which is contract_digest of a contract with that business record
  unfoldable pub contract_summary_digest : Business → Text
  contract_summary_digest b = canon.digest (business_value b)

  unfoldable pub contract_digest : TaskContract → Text
  unfolding contract_summary_digest
  contract_digest c = contract_summary_digest c.business_record

  unfoldable pub spawn_digest : TaskContract → Text
  spawn_digest c = canon.digest (spawn_record c.spawn)

  -- validate_contract_summary: the same checks with a spawn that is always valid.
  unfoldable pub validate_contract_summary : Business → Result (List Issue)
  validate_contract_summary b = validate_task_contract canon (
      to_record (record {
        business_record = b;
        spawn = record { fork_turns = codes "none"; model = none; reasoning_effort = none };
      }))
