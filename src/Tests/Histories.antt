-- ===== src/Tests/Histories.antt =====
-- What a task keeps, on concrete walks and ledgers.
use subagent_governance.Base.{
  Result, err, Error, [], codes, refl, ◌≡◌, ◌≤◌, arith, none, some, Text-discrete, ℕ_discrete,
  is_text,
}
use subagent_governance.Semantics.{Phase, Source, Status, UnknownCode}
use subagent_governance.Json.{is_member}
use subagent_governance.Contract.Records.{to_record}
use subagent_governance.Contract.Checks.{validate_task_contract}
use subagent_governance.Contract.Input.{validate_contract_summary, contract_summary_digest}
use subagent_governance.Identity.{is_task_ref}
use subagent_governance.Ledger.{Task}
use subagent_governance.Retention.{prune_closed_tasks, within_capacity}
use subagent_governance.Lifecycle.{fact_at, facts_of}
use subagent_governance.Lifecycle.Receipts.{close, closed_task}
use subagent_governance.State.{task_issues}
use subagent_governance.State.Valid.{IsValidTask, task_issues-IsValidTask}
use subagent_governance.State.Ledgers.{IsValidLedger}
use subagent_governance.Steps.Operations.{Operation, IsAdmitted, HasTrimmedCall}
use subagent_governance.Steps.Closed.{operate, operate-closed}
use subagent_governance.Contract.{Manifest, Verification}
use subagent_governance.Steps.{Walk, one, Step}
use subagent_governance.Steps.History.{rank, Keeps}
use subagent_governance.Steps.Retained.{
  Walk-rank, Walk-Keeps, Walk-target, Walk-terminal_fact, Walk-first_unknown,
}
use subagent_governance.Steps.Validity.{Walk-IsValidTask}
use subagent_governance.Steps.Ledgers.{prune-IsValidLedger}
use subagent_governance.Tests.Data.{bound_example, ended_example, with_task, canon, id, ref, agent}

unread : Manifest → Result Verification
unread m = err Error.context_verification

closed_example : Task
unfolding closed_task
closed_example = closed_task 40 (codes "done") ended_example

closing : Walk 40 ended_example closed_example
unfolding closed_example is_text Text-discrete ℕ_discrete
closing = one (Step.close (codes "done") (λ e. cc) refl refl)

Walk-rank_example : rank Phase.terminal ≤ rank Phase.closed
unfolding closed_example closed_task
Walk-rank_example = Walk-rank closing

Walk-Keeps_example : Keeps ended_example closed_example
Walk-Keeps_example = Walk-Keeps closing

-- A closed task is closed again for the same reason.
operate-closed_example : closed_example ≡ closed_example
unfolding operate IsAdmitted HasTrimmedCall closed_example close closed_task is_text Text-discrete
    ℕ_discrete
operate-closed_example =
    operate-closed canon unread 50 id [] (Operation.finish id ref (codes "done")) closed_example
      closed_example _ refl tt refl refl

Walk-target_example : closed_example.target ≡ some agent
unfolding closed_example
Walk-target_example = Walk-target closing (omega arith)

Walk-terminal_fact_example : closed_example.terminal_fact ≡ ended_example.terminal_fact
Walk-terminal_fact_example = Walk-terminal_fact closing (omega arith) (λ e. cc)

-- An ended task with an earlier unknown delivery.
doubtful : Task
doubtful = record ended_example {
  unknown_facts =
      some (record { delivery = some 25; platform_observation = none; interrupt = none });
}

Walk-first_unknown_example :
    fact_at UnknownCode.delivery_unknown
      (facts_of (closed_task 40 (codes "done") doubtful).unknown_facts)
    ≡ some 25
unfolding doubtful is_text Text-discrete ℕ_discrete
Walk-first_unknown_example =
    Walk-first_unknown UnknownCode.delivery_unknown 25
      (one {now = 40} (Step.close (codes "done") (λ e. cc) refl refl)) (omega arith) refl

bound_IsValid : IsValidTask canon id bound_example
unfolding task_issues Text-discrete ℕ_discrete is_text is_task_ref validate_contract_summary
    validate_task_contract to_record is_member contract_summary_digest
bound_IsValid = task_issues-IsValidTask canon id bound_example refl

Walk-IsValidTask_example : IsValidTask canon id ended_example
Walk-IsValidTask_example =
    Walk-IsValidTask canon 30 id
      (Walk.next (Step.end Source.platform Status.completed refl refl refl)
        (one (Step.observe Status.completed refl refl refl)))
      (omega arith) bound_IsValid

bound_ledger : IsValidLedger canon (with_task bound_example)
unfolding is_text Text-discrete ℕ_discrete
bound_ledger = record {
  session = refl;
  few = omega arith;
  each = (bound_IsValid, tt);
  refs = (refl, tt);
  targets = (refl, tt);
}

pruned_ledger : IsValidLedger canon (prune_closed_tasks within_capacity (with_task bound_example)).0
pruned_ledger = prune-IsValidLedger canon (with_task bound_example) bound_ledger
