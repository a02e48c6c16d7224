-- ===== src/Tests/Data.antt =====
-- A session with one task in each of the phases that the operations of scripts/ start from.
use subagent_governance.Base.{Text, codes, none, some, true, [], ◌∷◌}
use subagent_governance.Semantics.{Phase, NativeInterface, Profile, Status, Source}
use subagent_governance.Contract.{Business, NativeParameters}
use subagent_governance.Contract.Canon.{Canon}
use subagent_governance.Ledger.{Task, Ledger, Prepared}
use subagent_governance.Store.{Encoding}

abbrev pub digest : Text
digest = codes "0123456789abcdef0123456789abcdef0123456789abcdef0123456789abcdef"

abbrev pub canon : Canon
canon = record {
  is_absolute = λ path. true;
  canonical_size = λ value. some 100;
  digest = λ value. digest;
}

abbrev pub encoding : Encoding
encoding = record { canon = canon; encoded_size = λ l. 500 }

abbrev pub business : Business
business = record {
  profile = Profile.standard;
  objective = codes "o";
  scope = codes "s" ∷ [];
  forbidden_scope = [];
  completion = codes "c" ∷ [];
  evidence = [];
  context = record { summary = []; paths = []; verified = none };
}

abbrev pub session : Text
session = codes "session"

abbrev pub id : Text
id = codes "task"

abbrev pub ref : Text
ref = codes "0123456789ab"

abbrev pub agent : Text
agent = codes "agent"

abbrev pub other_agent : Text
other_agent = codes "other"

abbrev pub call : Text
call = codes "call"

abbrev pub other_call : Text
other_call = codes "call2"

abbrev pub bound_example : Task
bound_example = record {
  task_ref = ref;
  native_interface = NativeInterface.collaboration_turns;
  phase = Phase.bound;
  contract_digest = digest;
  contract_summary = business;
  created_at = 10;
  updated_at = 20;
  prepared = none;
  claimed_tool_use_id = none;
  claimed_at = none;
  target = some agent;
  bound_at = some 20;
  platform_observation = none;
  terminal_fact = none;
  interrupt_fact = none;
  unknown_facts = none;
  reconcile = none;
  close_reason = none;
  closed_at = none;
}

-- A bound task that ended as completed at 30.
abbrev pub ended_example : Task
ended_example = record bound_example {
  phase = Phase.terminal;
  updated_at = 30;
  platform_observation = some (record { status = Status.completed; observed_at = 30 });
  terminal_fact =
      some (record { source = Source.platform; status = Status.completed; observed_at = 30 });
}

abbrev pub parameters : NativeParameters
parameters = record {
  task_name = some (codes "sg_standard_a_t_0123456789ab");
  message = codes "m";
  fork_turns = codes "none";
  model = none;
  reasoning_effort = none;
}

abbrev pub capability : Prepared
capability = record {
  contract = record {
    business_record = business;
    spawn = record { fork_turns = codes "none"; model = none; reasoning_effort = none };
  };
  context_verification = none;
  expected_native_parameters = parameters;
  spawn_digest = digest;
  expires_at = 610;
}

abbrev pub prepared_example : Task
prepared_example = record bound_example {
  phase = Phase.prepared;
  updated_at = 10;
  prepared = some capability;
  target = none;
  bound_at = none;
}

abbrev pub claimed_example : Task
claimed_example = record prepared_example {
  phase = Phase.claimed;
  updated_at = 15;
  claimed_tool_use_id = some call;
  claimed_at = some 15;
}

abbrev pub with_task : Task → Ledger
with_task t = record { session_id = session; tasks = (id, t) ∷ [] }
