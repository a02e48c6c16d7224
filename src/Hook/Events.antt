-- ===== src/Hook/Events.antt =====
-- handle_hook of scripts/governance_hook.py, read_json_object of scripts/governance_input.py and the
-- transport `_hook` of scripts/governance_cli.py.
use subagent_governance.Base.{
  ℕ, Text, codes, take, text_eq, Option, none, some, List, [], ◌∷◌, ◌++◌, ◌||◌, if◌then◌else◌, leb,
  Result, ok, err, Error, guard, ◌>>=◌, ◌>>◌,
}
use subagent_governance.Json.{Value, Fields, fields, get}
use subagent_governance.Semantics.{session_summary_context_limit, max_hook_input_bytes}
use subagent_governance.Contract.{Manifest, Verification}
use subagent_governance.Rendering.{join}
use subagent_governance.Store.{Contents, WriteFault, Encoding}
use subagent_governance.Hook.Messages.{Code, Site, Evidence, Action, Diagnosis, diagnostic}
use subagent_governance.Hook.Summary.{session_summary}
use subagent_governance.Hook.{Decision, reply_of, present, pre_tool_use}

-- What the summary takes from outside: `json.dumps` of a text, the path of the command line, and how
-- data_root_path of scripts/governance_store_support.py ends, which raises where a home directory, a
-- temporary directory or a user name cannot be found.
pub record Surroundings : Type 0 where
  pub quote : Text → Text
  pub cli_entrypoint : Text
  pub data_root : Result (Unit {0})

module _ (around : Surroundings) where
  pub head_lines : Text → List Text
  head_lines session_id =
      (codes "Subagent Governance 当前 Hook 权威 exact session_id（JSON）：" ++ around.quote session_id)
      ∷ (codes "当前 Hook 权威 governance CLI entrypoint（JSON）：" ++ around.quote around.cli_entrypoint)
      ∷ codes "所有治理命令必须用上方 entrypoint，且 --session 必须逐字使用上方 session_id。"
      ∷ codes "<codex_delegation><source_thread_id> 仅表示来源任务，不是当前 session_id；不得用父任务、任务列表或其他 ID 替代。"
      ∷ (codes "使用 --status --session <上方 exact session_id> 读取轻量状态；"
          ++ (codes "恢复验收依据时另加 --task-id <task_id> --task-ref <task_ref> 读取该任务原始契约。"
              ++ codes "不得自动重派或推断 identity。"))
      ∷ []

  unfoldable pub child_lines : List Text
  child_lines =
      (codes "子 Agent Hook 的 session_id 使用父会话 ID；共享 Session 不代表共享任务职责。"
        ++ (codes "只治理本任务获授权派发并取得精确回执的子任务，或明确交接且身份与契约齐全的任务；"
            ++ (codes "不得因账本可见而接管父级或兄弟任务。"
                ++ codes "agent_id/thread_id 不是 Session，也不替代本次原生 spawn 回执。")))
      ∷ []

  pub start_reply : Text → List Text → Value
  unfolding join
  start_reply event lines = Value.obj (
      fields (
        (
          codes "hookSpecificOutput",
          Value.obj (
              fields (
                (codes "hookEventName", Value.str event)
                ∷ (
                  codes "additionalContext",
                  Value.str (take session_summary_context_limit (join (b'\n' ∷ []) lines)),
                )
                ∷ [])),
        )
        ∷ []))

  module _ (encoding : Encoding) (observed_at : ℕ) where
    -- The lines that only one of the two events has.
    unfoldable pub event_lines : Text → Text → Contents → Result (List Text)
    unfolding child_lines session_summary
    event_lines event session_id file =
        if text_eq event (codes "SubagentStart")
        then ok child_lines
        else session_summary encoding observed_at around.data_root session_id file

    unfoldable pub start_at : Text → Option Text → Contents → Result (Option Value)
    unfolding head_lines event_lines start_reply
    start_at event none file = ok none
    start_at event (some session_id) file = do
      more ← event_lines event session_id file
      ok (some (start_reply event (head_lines session_id ++ more)))

    -- _start_context
    unfoldable pub start_context : Text → Fields → Contents → Result (Option Value)
    unfolding start_at present get
    start_context event payload file =
        start_at event (present (get (codes "session_id") payload)) file

  module _ (encoding : Encoding) (verify : Manifest → Result Verification) (fault : WriteFault)
      (opening : Result (Unit {0})) (clock : ℕ) where
    unfoldable pub replied : Option Decision × Contents → Result (Option Value) × Contents
    unfolding reply_of
    replied (none, file) = (ok none, file)
    replied (some d, file) = (ok (some (reply_of d)), file)

    unfoldable pub handle_event : Value → Fields → Contents → Result (Option Value) × Contents
    unfolding replied pre_tool_use start_context
    handle_event (Value.str event) payload file =
        if text_eq event (codes "PreToolUse")
        then replied (pre_tool_use encoding verify fault opening clock payload file)
        else if text_eq event (codes "SessionStart") || text_eq event (codes "SubagentStart")
        then (start_context encoding clock event payload file, file)
        else (ok none, file)
    handle_event _ payload file = (ok none, file)

    -- handle_hook
    unfoldable pub handle_hook : Fields → Contents → Result (Option Value) × Contents
    unfolding handle_event get
    handle_hook payload file = handle_event (get (codes "hook_event_name") payload) payload file

-- `json.loads(raw.decode("utf-8"))` of at most `limit` bytes, which must be an object. The stream is
-- what it has left: the number of its bytes, and what they decode to.
as_object : Value → Result Fields
as_object (Value.obj fs) = ok fs
as_object _ = err Error.value_error

-- read_json_object
unfoldable pub read_json_object : ℕ → ℕ → Result Value → Result Fields
unfolding as_object
read_json_object limit size decoded = do
  guard (leb size limit) Error.value_error
  v ← decoded
  as_object v

system_message : Diagnosis → Value
unfolding diagnostic
system_message d = Value.obj (fields ((codes "systemMessage", Value.str (diagnostic d)) ∷ []))

continuing : Code → Site → Evidence → Diagnosis
continuing code stage claim = record {
  code = code;
  stage = stage;
  claim = claim;
  action = Action.continue;
}

module _ (around : Surroundings) (encoding : Encoding) (verify : Manifest → Result Verification)
    (fault : WriteFault) (opening : Result (Unit {0})) (clock : ℕ) where
  transported : Result (Option Value) × Contents → Option Value × Contents
  unfolding system_message continuing
  transported (err e, file) =
      (some (system_message (continuing Code.internal_error Site.outer Evidence.unknown)), file)
  transported (ok reply, file) = (reply, file)

  -- `_hook`: what is printed, if anything. It always ends with the exit code 0.
  unfoldable pub hook : ℕ → Result Value → Contents → Option Value × Contents
  unfolding read_json_object transported handle_hook system_message continuing
  hook size decoded file = elim (read_json_object max_hook_input_bytes size decoded) [
    | err e ↦ (
      some (system_message (continuing Code.input_parse_error Site.parse Evidence.not_attempted)),
      file,
    )
    | ok payload ↦ transported (handle_hook around encoding verify fault opening clock payload file)
  ]
