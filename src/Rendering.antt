-- ===== src/Rendering.antt =====
-- scripts/governance_dispatch_rendering.py: the prompt of a dispatch and its native parameters.
use subagent_governance.Base.{Text, codes, Option, none, some, List, [], ◌∷◌, ◌++◌, map, Result}
use subagent_governance.Json.{Value}
use subagent_governance.Semantics.{NativeInterface}
use subagent_governance.Contract.{
  PathKind, Baseline, VerifiedPath, Verification, Business, TaskContract, NativeParameters,
}
use subagent_governance.Identity.{message_prefix}
use subagent_governance.Native.{render_native_spawn}

-- `sep.join(parts)`
unfoldable pub join : Text → List Text → Text
join sep [] = []
join sep (p ∷ []) = p
join sep (p ∷ q ∷ ps) = p ++ (sep ++ join sep (q ∷ ps))

abbrev newline : Text
newline = b'\n' ∷ []

bullet : Text → Text
bullet value = codes "- " ++ value

-- `_list`
bullets : List Text → Text
unfolding bullet join
bullets values = join newline (map bullet values)

kind_word : PathKind → Text
kind_word PathKind.file = codes "file"
kind_word PathKind.directory = codes "directory"

baseline_line : Baseline → Text
baseline_line Baseline.working_tree = codes "基线：working_tree"
baseline_line (Baseline.git_commit revision) = codes "基线：git_commit " ++ revision

material_line : VerifiedPath → Text
unfolding kind_word
material_line p = codes "- " ++ (p.path ++ (codes " (" ++ (kind_word p.kind ++ codes ")")))

abbrev material_sections : Option Verification → List (Text × Text)
material_sections none = []
material_sections (some v) =
    (
      codes "已验证材料",
      join newline (
          (codes "工作区：" ++ v.workspace_root)
          ∷ baseline_line v.baseline
          ∷ (map material_line v.required_paths ++ codes "仅覆盖校验时点的声明材料；不保证执行期间不变，不提供工作区隔离。" ∷ [])),
    )
    ∷ []

terminal_duty : Text
terminal_duty =
    codes "普通问题、补充信息请求和方案对齐使用进行中消息，"
    ++ (codes "不因此宣称本次执行结束；继续不依赖该决定的工作。\n"
        ++ (codes "完成交付、明确停止，或确实无法继续且需要交还控制时，" ++ codes "向父 Agent 发送明确终态通知，说明结果、验证证据、剩余事项和所需决定。"))

sections_of : Business → Option Verification → List (Text × Text)
unfolding bullets join baseline_line material_line terminal_duty
sections_of b verification =
    ((codes "唯一当前目标", b.objective)
      ∷ (codes "上下文摘要", b.context.summary)
      ∷ (codes "工作范围", bullets b.scope)
      ∷ (codes "禁止范围", bullets b.forbidden_scope)
      ∷ (codes "定位路径", bullets b.context.paths)
      ∷ [])
    ++ (material_sections verification
        ++ (codes "完成条件", bullets b.completion)
          ∷ (codes "验收证据", bullets b.evidence)
          ∷ (codes "终态义务", terminal_duty)
          ∷ [])

-- `if value`: an empty section is left out.
abbrev shown : Text × Text → List Text → List Text
shown (title, []) rest = rest
shown (title, c ∷ value) rest = (codes "【" ++ (title ++ (codes "】\n" ++ c ∷ value))) ∷ rest

rendered : List (Text × Text) → List Text
rendered [] = []
rendered (section ∷ rest) = shown section (rendered rest)

-- render_dispatch_prompt
unfoldable pub render_dispatch_prompt : Business → Option Verification → Text
unfolding sections_of rendered join
render_dispatch_prompt b verification =
    join (b'\n' ∷ b'\n' ∷ []) (rendered (sections_of b verification))

-- expected_native_parameters
unfoldable pub expected_native_parameters :
    TaskContract → Text → Option Verification → NativeParameters
expected_native_parameters c task_name verification = record {
  task_name = some task_name;
  message =
      message_prefix
      ++ (task_name ++ (codes "]\n" ++ render_dispatch_prompt c.business_record verification));
  fork_turns = c.spawn.fork_turns;
  model = c.spawn.model;
  reasoning_effort = c.spawn.reasoning_effort;
}

-- spawn_args
unfoldable pub spawn_args :
    TaskContract → Text → Option Verification → NativeInterface → Result Value
unfolding expected_native_parameters
spawn_args c task_name verification interface =
    render_native_spawn interface (expected_native_parameters c task_name verification)
