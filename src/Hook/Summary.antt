-- ===== src/Hook/Summary.antt =====
-- _start_context and _session_summary of scripts/governance_hook.py: what a starting agent is told of
-- its session.
use Prim.Native.Nat.{◌/◌, ◌%◌}
use subagent_governance.Base.{
  ℕ, zero, suc, ◌+◌, Text, codes, Option, none, some, Bool, true, false, List, [], ◌∷◌, ◌>>=◌, ◌>>◌,
  ◌++◌, if◌then◌else◌, ltb, any, Result, ok, err,
}
use subagent_governance.Semantics.{Phase, ReconcileCode, session_summary_record_limit}
use subagent_governance.Rendering.{join}
use subagent_governance.Ledger.{Ledger, UnknownFacts}
use subagent_governance.Store.{Contents, Encoding, read_ledger_readonly}
use subagent_governance.Diagnostics.{NextAction, Expiry, View, project_status}

-- `str(n)`, with fuel for the digits
decimal_from : ℕ → ℕ → Text
decimal_from zero n = []
decimal_from (suc fuel) n =
    let rest = decimal_from fuel (n / 10) in
    if ltb n 10 then (b'0' + n) ∷ [] else rest ++ (b'0' + n % 10) ∷ []

unfoldable pub decimal : ℕ → Text
unfolding decimal_from
decimal n = decimal_from (suc n) n

phase_word : Phase → Text
phase_word Phase.prepared = codes "prepared"
phase_word Phase.claimed = codes "claimed"
phase_word Phase.bound = codes "bound"
phase_word Phase.terminal = codes "terminal"
phase_word Phase.closed = codes "closed"
phase_word Phase.reconcile = codes "reconcile"

action_word : NextAction → Text
action_word NextAction.invoke_exact_spawn_args = codes "invoke_exact_spawn_args"
action_word NextAction.confirm_exact_target = codes "confirm_exact_target"
action_word NextAction.observe_exact_target = codes "observe_exact_target"
action_word NextAction.parent_close = codes "parent_close"
action_word NextAction.no_action = codes "none"
action_word NextAction.manual_reconcile = codes "manual_reconcile"
action_word NextAction.parent_review_expired_preparation = codes "parent_review_expired_preparation"

code_word : ReconcileCode → Text
code_word ReconcileCode.dispatch_target_conflict = codes "dispatch_target_conflict"
code_word ReconcileCode.dispatch_target_already_bound = codes "dispatch_target_already_bound"
code_word ReconcileCode.dispatch_identity_mismatch = codes "dispatch_identity_mismatch"
code_word ReconcileCode.dispatch_claim_missing = codes "dispatch_claim_missing"
code_word ReconcileCode.dispatch_result_unknown = codes "dispatch_result_unknown"
code_word ReconcileCode.terminal_status_conflict = codes "terminal_status_conflict"

abbrev name_if : Option ℕ → Text → List Text → List Text
name_if none name names = names
name_if (some n) name names = name ∷ names

-- `sorted(task["unknown_facts"])`
fact_names : UnknownFacts → List Text
fact_names f = name_if f.delivery (codes "delivery_unknown") (
    name_if f.interrupt (codes "interrupt_unknown")
      (name_if f.platform_observation (codes "platform_observation_unknown") []))

-- `f" target={task['target']}" if task.get("target") else ""`
target_part : Option Text → Text
target_part none = []
target_part (some []) = []
target_part (some (c ∷ s)) = codes " target=" ++ c ∷ s

unknown_part : List Text → Text
unfolding join
unknown_part [] = []
unknown_part (n ∷ ns) = codes " 曾出现未确定回执=" ++ join (codes ",") (n ∷ ns)

reconcile_part : Option ReconcileCode → Text
unfolding code_word
reconcile_part none = []
reconcile_part (some c) = codes " reconcile=" ++ code_word c

expired_word : Bool → Text
expired_word true = codes "true"
expired_word false = codes "false"

expiry_part : Option Expiry → Text
unfolding expired_word decimal
expiry_part none = []
expiry_part (some e) =
    codes " expires_at=" ++ (decimal e.expires_at ++ (codes " expired=" ++ expired_word e.expired))

-- The line of one task.
unfoldable pub task_line : View → Text
unfolding phase_word action_word fact_names target_part unknown_part reconcile_part expiry_part
task_line v =
    codes "- task_id="
    ++ (v.task_id
        ++ (codes " task_ref="
            ++ (v.task_ref
                ++ (codes " phase="
                    ++ (phase_word v.phase
                        ++ (target_part v.target
                            ++ (codes " next_action="
                                ++ (action_word v.next_action
                                    ++ (expiry_part v.expiry
                                        ++ (unknown_part (fact_names v.unknown_facts)
                                            ++ reconcile_part v.reconcile_reason))))))))))

abbrev is_open : Phase → Bool
is_open Phase.closed = false
is_open _ = true

-- The tasks that are not closed.
unfoldable pub open_tasks : List View → List View
open_tasks [] = []
open_tasks (v ∷ vs) = if is_open v.phase then v ∷ open_tasks vs else open_tasks vs

abbrev is_expired : View → Bool
is_expired v = elim v.expiry [ none ↦ false | some e ↦ e.expired ]

-- The lines of at most n tasks.
unfoldable pub task_lines : ℕ → List View → List Text
unfolding task_line
task_lines zero vs = []
task_lines (suc n) [] = []
task_lines (suc n) (v ∷ vs) = task_line v ∷ task_lines n vs

expired_lines : Bool → List Text
expired_lines false = []
expired_lines true = codes "prepared 已过期：需父任务判断后续处置；过期不证明原生 Agent 未创建，不得自动重派。" ∷ []

unfoldable pub open_lines : List View → List Text
unfolding task_lines expired_lines
open_lines [] = codes "当前 exact Session 没有可读的未关闭治理任务。" ∷ []
open_lines (v ∷ vs) =
    expired_lines (any is_expired (v ∷ vs))
    ++ codes "Subagent Governance state-v12 当前 exact Session 未关闭任务："
      ∷ task_lines session_summary_record_limit (v ∷ vs)

pub unreadable_lines : List Text
unreadable_lines = codes "当前治理状态摘要不可读取；不得因此猜测其他 Session identity。" ∷ []

module _ (encoding : Encoding) (observed_at : ℕ) where
  unfoldable pub views_of : Option Ledger → Result (List View)
  unfolding project_status
  views_of none = ok []
  views_of (some l) = project_status observed_at l.tasks

  -- The part of _session_summary behind the reading.
  unfoldable pub summary_of : Result (Option Ledger) → Result (List Text)
  unfolding open_lines open_tasks views_of
  summary_of (err e) = ok unreadable_lines
  summary_of (ok l) = do vs ← views_of l; ok (open_lines (open_tasks vs))

  -- _session_summary: an error of the reading is a line of its own. `data_root` is how the choice of
  -- the data directory ends, which stands before the `try`.
  unfoldable pub session_summary : Result (Unit {0}) → Text → Contents → Result (List Text)
  unfolding summary_of read_ledger_readonly
  session_summary data_root session_id file = do
    data_root
    summary_of (read_ledger_readonly encoding session_id file)
