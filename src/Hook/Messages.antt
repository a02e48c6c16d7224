-- ===== src/Hook/Messages.antt =====
-- scripts/governance_hook_diagnostics.py: what the Hook tells of a call.
use subagent_governance.Base.{Text, codes, ◌++◌, Stage}

-- `code`, the key of _REASONS
pub data Code : Type 0 where
  input_unavailable session_unavailable call_id_unavailable marker_conflict : Code
  native_conflict claim_conflict preparation_expired material_conflict : Code
  material_unavailable state_unavailable claim_commit_unknown internal_error : Code
  input_parse_error claimed already_claimed claimed_after_write_error : Code

-- `stage`: a stage of the Hook, or one of the claim. `whole_claim` is the stage of an exception that
-- names none.
pub data Site : Type 0 where
  parse recognition identity state_init outer whole_claim : Site
  inside : Stage → Site

-- `claim`, the key of _CLAIMS
pub data Evidence : Type 0 where
  not_attempted unconfirmed unknown confirmed : Evidence

pub data Action : Type 0 where
  allow deny continue claimed : Action

pub record Diagnosis : Type 0 where
  pub code : Code
  pub stage : Site
  pub claim : Evidence
  pub action : Action

unfoldable pub code_word : Code → Text
code_word Code.input_unavailable = codes "input_unavailable"
code_word Code.session_unavailable = codes "session_unavailable"
code_word Code.call_id_unavailable = codes "call_id_unavailable"
code_word Code.marker_conflict = codes "marker_conflict"
code_word Code.native_conflict = codes "native_conflict"
code_word Code.claim_conflict = codes "claim_conflict"
code_word Code.preparation_expired = codes "preparation_expired"
code_word Code.material_conflict = codes "material_conflict"
code_word Code.material_unavailable = codes "material_unavailable"
code_word Code.state_unavailable = codes "state_unavailable"
code_word Code.claim_commit_unknown = codes "claim_commit_unknown"
code_word Code.internal_error = codes "internal_error"
code_word Code.input_parse_error = codes "input_parse_error"
code_word Code.claimed = codes "claimed"
code_word Code.already_claimed = codes "already_claimed"
code_word Code.claimed_after_write_error = codes "claimed_after_write_error"

stage_word : Stage → Text
stage_word Stage.state = codes "state"
stage_word Stage.validation = codes "validation"
stage_word Stage.material = codes "material"
stage_word Stage.commit = codes "commit"

unfoldable pub site_word : Site → Text
unfolding stage_word
site_word Site.parse = codes "parse"
site_word Site.recognition = codes "recognition"
site_word Site.identity = codes "identity"
site_word Site.state_init = codes "state_init"
site_word Site.outer = codes "outer"
site_word Site.whole_claim = codes "claim"
site_word (Site.inside s) = stage_word s

unfoldable pub evidence_word : Evidence → Text
evidence_word Evidence.not_attempted = codes "not_attempted"
evidence_word Evidence.unconfirmed = codes "unconfirmed"
evidence_word Evidence.unknown = codes "unknown"
evidence_word Evidence.confirmed = codes "confirmed"

-- _REASONS
unfoldable pub reason_text : Code → Text
reason_text Code.input_unavailable = codes "原生输入无法验证，不能确定治理检查通过"
reason_text Code.session_unavailable = codes "exact session_id 无法验证"
reason_text Code.call_id_unavailable = codes "tool_use_id 无法验证"
reason_text Code.marker_conflict = codes "治理标记无效或与 task_name 不一致，请核对 prepare-dispatch 输出"
reason_text Code.native_conflict = codes "已知原生参数形态或身份不一致"
reason_text Code.claim_conflict = codes "任务引用、阶段、capability 或冻结参数冲突"
reason_text Code.preparation_expired = codes "派发准备已过期；核对本次原生调用回执和 exact Session 状态后处置"
reason_text Code.material_conflict = codes "声明材料冲突：与冻结基线不一致"
reason_text Code.material_unavailable = codes "声明材料校验无法完成"
reason_text Code.state_unavailable = codes "账本访问或校验无法完成"
reason_text Code.claim_commit_unknown = codes "claim 提交结果无法确认"
reason_text Code.internal_error = codes "Hook 内部处理无法完成"
reason_text Code.input_parse_error = codes "Hook 输入解析失败，无法判定治理意图"
reason_text Code.claimed = codes "claim 已确认"
reason_text Code.already_claimed = codes "同一原生调用的 claim 已确认"
reason_text Code.claimed_after_write_error = codes "写入报错后精确回读确认同一 claim"

-- _CLAIMS
unfoldable pub claim_text : Evidence → Text
claim_text Evidence.not_attempted = codes "本次未尝试 claim，不推断既有账本事实"
claim_text Evidence.unconfirmed = codes "本次未确认 claim，不代表账本中不存在 claim"
claim_text Evidence.unknown = codes "claim 结果不确定，不能声称未提交"
claim_text Evidence.confirmed = codes "仅确认 claim，不证明原生创建或业务成功"

unfoldable pub decision_text : Action → Text
decision_text Action.allow = codes "Hook 返回允许（fail-open）"
decision_text Action.deny = codes "Hook 返回拒绝"
decision_text Action.continue = codes "Hook 返回继续（fail-open）"
decision_text Action.claimed = codes "Hook 返回允许"

expired_step : Text
expired_step =
    codes "核对同一次原生工具回执和 exact task 状态；仅在回执明确 PreToolUse 阻止原生执行"
    ++ (codes "且任务仍为 prepared 时登记 failed。是否重新派发依据用户明确授权和上层流程；" ++ codes "否则不得推断 Agent 未创建。")

conflict_step : Text
conflict_step = codes "处理已确认冲突；不猜身份、不自动重派，不据此推断平台已经中止。"

open_step : Text
open_step =
    codes "核对可取得的本次原生回执和 exact-session 状态；缺 claim 的 confirm 进入 reconcile；"
    ++ codes "不猜身份、不自动重派，不将降级视为检查通过。"

unconfirmed_step : Code → Action → Text
unfolding expired_step conflict_step open_step
unconfirmed_step Code.preparation_expired Action.deny = expired_step
unconfirmed_step code Action.deny = conflict_step
unconfirmed_step code action = open_step

next_step : Evidence → Code → Action → Text
unfolding unconfirmed_step
next_step Evidence.confirmed code action = codes "依据本次原生返回的 exact target 执行 confirm。"
next_step claim code action = unconfirmed_step code action

-- diagnostic
unfoldable pub diagnostic : Diagnosis → Text
unfolding code_word site_word evidence_word reason_text claim_text decision_text next_step
diagnostic d =
    codes "Subagent Governance code="
    ++ (code_word d.code
        ++ (codes " stage="
            ++ (site_word d.stage
                ++ (codes " claim="
                    ++ (evidence_word d.claim
                        ++ (codes "："
                            ++ (reason_text d.code
                                ++ (codes "。"
                                    ++ (decision_text d.action
                                        ++ (codes "；"
                                            ++ (claim_text d.claim
                                                ++ (codes "。原生执行结果须以实际回执为准。"
                                                    ++ next_step d.claim d.code d.action))))))))))))
