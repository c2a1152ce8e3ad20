-- ===== src/Failures/Table.antt =====
-- The table of public failures of direct_pi/failures.py and its tables of internal messages and
-- codes.
use fomo_demo.Prelude.{String, List, [], ◌∷◌}
use fomo_demo.Failures.{PublicRunFailure}

abbrev pub inference_gateway_unavailable : PublicRunFailure
inference_gateway_unavailable = record {
  code = "inference_gateway_unavailable";
  message = "模型服务暂时不可用，请稍后重试。";
}

abbrev pub run_token_budget_exceeded : PublicRunFailure
run_token_budget_exceeded = record {
  code = "run_token_budget_exceeded";
  message = "本次任务已达到 Token 使用上限，请缩小任务范围后重试。";
}

abbrev run_tool_budget_exceeded : PublicRunFailure
run_tool_budget_exceeded = record {
  code = "run_tool_budget_exceeded";
  message = "本次任务已达到工具调用上限，请缩小任务范围后重试。";
}

abbrev run_wall_time_budget_exceeded : PublicRunFailure
run_wall_time_budget_exceeded = record {
  code = "run_wall_time_budget_exceeded";
  message = "本次任务已达到最长运行时间，请缩小任务范围后重试。";
}

abbrev run_spend_budget_exceeded : PublicRunFailure
run_spend_budget_exceeded = record {
  code = "run_spend_budget_exceeded";
  message = "本次任务已达到费用上限，请缩小任务范围后重试。";
}

abbrev run_output_budget_exceeded : PublicRunFailure
run_output_budget_exceeded = record {
  code = "run_output_budget_exceeded";
  message = "模型单次输出已达到上限，请重试或缩小任务范围。";
}

abbrev pub model_runtime_protocol_failed : PublicRunFailure
model_runtime_protocol_failed = record {
  code = "model_runtime_protocol_failed";
  message = "模型运行协议未能完整结束，未获得可用结果。请重试或切换模型。";
}

abbrev pub model_response_failed : PublicRunFailure
model_response_failed = record {
  code = "model_response_failed";
  message = "模型未返回可用的公开结果。请重试、切换模型或缩小任务范围。";
}

abbrev coding_agent_runtime_failed : PublicRunFailure
coding_agent_runtime_failed = record {
  code = "coding_agent_runtime_failed";
  message = "Coding Agent 运行环境暂时不可用，请重试；若问题持续发生，请检查当前选择的 Agent 框架状态。";
}

abbrev pub agent_capability_unavailable : PublicRunFailure
agent_capability_unavailable = record {
  code = "agent_capability_unavailable";
  message = "当前 Coding Agent 未获得完成此阶段所需的仓库或命令工具，本轮没有进入代码验收。请重试或切换 Agent 框架。";
}

abbrev pub agent_no_effect : PublicRunFailure
agent_no_effect = record {
  code = "agent_no_effect";
  message = "Coding Agent 已结束本轮开发，但工作区没有产生可验收的代码变更。系统已停止验证未修改的项目，请调整需求或切换 Agent 框架后重试。";
}

abbrev pub planning_contract_failed : PublicRunFailure
planning_contract_failed = record {
  code = "planning_contract_failed";
  message = "模型未能按要求返回有效的产品规划合约。请重试或切换模型。";
}

abbrev pub workspace_contract_failed : PublicRunFailure
workspace_contract_failed = record {
  code = "workspace_contract_failed";
  message = "生成结果未通过工作区安全契约检查，未被发布。请移除密钥或环境文件、受保护文件改动、符号链接或超出限制的文件后重试。";
}

abbrev direct_pi_verification_failed : PublicRunFailure
direct_pi_verification_failed = record {
  code = "direct_pi_verification_failed";
  message = "确定性验收仍有阻塞项，任务未发布。请查看失败的类型检查、构建或浏览器验收结果后重试。";
}

abbrev goal_verification_failed : PublicRunFailure
goal_verification_failed = record {
  code = "goal_verification_failed";
  message = "当前开发目标未通过确定性验收，且自动修复次数已用完。请查看失败门禁并缩小需求后重试。";
}

abbrev goal_typecheck_failed : PublicRunFailure
goal_typecheck_failed = record {
  code = "goal_typecheck_failed";
  message = "当前开发目标未通过 TypeScript 类型检查，且自动修复未成功。请查看类型检查结果后重试。";
}

abbrev goal_graph_final_reverification_failed : PublicRunFailure
goal_graph_final_reverification_failed = record {
  code = "goal_graph_final_reverification_failed";
  message = "最终候选在完整复验中失败，未被发布。请查看发布门禁结果后重试。";
}

abbrev direct_pi_infrastructure_failed : PublicRunFailure
direct_pi_infrastructure_failed = record {
  code = "direct_pi_infrastructure_failed";
  message = "验收基础设施暂时不可用，无法可信判断生成结果。请稍后重试；这不代表应用代码一定有问题。";
}

abbrev goal_verification_infrastructure_failed : PublicRunFailure
goal_verification_infrastructure_failed = record {
  code = "goal_verification_infrastructure_failed";
  message = "当前目标的验收基础设施未能完成检查。请稍后重试；这不代表当前代码一定有问题。";
}

abbrev worker_lease_expired : PublicRunFailure
worker_lease_expired = record {
  code = "worker_lease_expired";
  message = "执行 Worker 在任务完成前失去租约，任务已中止。请重试；若持续发生，请检查 Worker 状态。";
}

abbrev continuation_answer_missing : PublicRunFailure
continuation_answer_missing = record {
  code = "continuation_answer_missing";
  message = "澄清问题的回答未能持久保存，任务无法继续。请重新提交该需求。";
}

abbrev continuation_cursor_invalid : PublicRunFailure
continuation_cursor_invalid = record {
  code = "continuation_cursor_invalid";
  message = "澄清回答对应的运行阶段已失效，任务无法安全继续。请重新提交该需求。";
}

abbrev pi_session_resume_unavailable : PublicRunFailure
pi_session_resume_unavailable = record {
  code = "pi_session_resume_unavailable";
  message = "原 Coding Agent 会话或沙箱已不可用，无法安全续接。请重新提交该需求。";
}

abbrev p0_continuation_unsupported : PublicRunFailure
p0_continuation_unsupported = record {
  code = "p0_continuation_unsupported";
  message = "当前兼容运行模式不支持安全续接澄清回答。请重新提交该需求。";
}

abbrev repair_no_progress : PublicRunFailure
repair_no_progress = record {
  code = "repair_no_progress";
  message = "自动修复后再次出现同一阻塞问题，任务已停止。请查看失败门禁并调整需求后重试。";
}

abbrev repair_limit_reached : PublicRunFailure
repair_limit_reached = record {
  code = "repair_limit_reached";
  message = "自动修复次数已用完，仍有阻塞性验收失败。请查看失败门禁后重试。";
}

abbrev sop_execution_error : PublicRunFailure
sop_execution_error = record {
  code = "sop_execution_error";
  message = "执行 Worker 在验收完成前异常停止。请重试；若持续发生，请检查 Worker 状态。";
}

abbrev pub coding_agent_failed : PublicRunFailure
coding_agent_failed = record {
  code = "coding_agent_failed";
  message = "Coding Agent 运行失败，请重试；若问题持续发生，请检查服务状态。";
}

-- `PUBLIC_FAILURES_BY_CODE`, in the order of the source
abbrev pub public_failures : List PublicRunFailure
public_failures =
    inference_gateway_unavailable ∷ run_token_budget_exceeded ∷ run_tool_budget_exceeded
    ∷ run_wall_time_budget_exceeded ∷ run_spend_budget_exceeded ∷ run_output_budget_exceeded
    ∷ model_runtime_protocol_failed ∷ model_response_failed ∷ coding_agent_runtime_failed
    ∷ agent_capability_unavailable ∷ agent_no_effect ∷ planning_contract_failed
    ∷ workspace_contract_failed ∷ direct_pi_verification_failed ∷ goal_verification_failed
    ∷ goal_typecheck_failed ∷ goal_graph_final_reverification_failed
    ∷ direct_pi_infrastructure_failed ∷ goal_verification_infrastructure_failed
    ∷ worker_lease_expired ∷ continuation_answer_missing ∷ continuation_cursor_invalid
    ∷ pi_session_resume_unavailable ∷ p0_continuation_unsupported ∷ repair_no_progress
    ∷ repair_limit_reached ∷ sop_execution_error ∷ coding_agent_failed ∷ []

-- `_SESSION_FAILURES_BY_EXACT_MESSAGE`
abbrev pub session_failures : List (String × PublicRunFailure)
session_failures =
    ("Direct Pi exceeded the run token budget", run_token_budget_exceeded)
    ∷ ("Direct Pi exceeded the run tool-call budget", run_tool_budget_exceeded)
    ∷ ("Direct Pi run exceeded its wall-clock budget", run_wall_time_budget_exceeded)
    ∷ ("Direct Pi exceeded the run spend budget", run_spend_budget_exceeded)
    ∷ ("Direct Pi reached its output limit", run_output_budget_exceeded)
    ∷ ("Direct Pi completed without a public assistant result", model_response_failed)
    ∷ []

-- `_ORCHESTRATION_FAILURES_BY_EXACT_MESSAGE`
abbrev pub orchestration_failures : List (String × PublicRunFailure)
orchestration_failures =
    ("Direct Pi exhausted its durable spend budget", run_spend_budget_exceeded) ∷ []

-- `_BRIDGE_FAILURES_BY_INTERNAL_CODE`
abbrev pub bridge_failures : List (String × PublicRunFailure)
bridge_failures =
    ("timeout", run_wall_time_budget_exceeded)
    ∷ ("agent_inactivity_timeout", run_wall_time_budget_exceeded)
    ∷ ("missing_structured_output", planning_contract_failed)
    ∷ ("invalid_structured_output", planning_contract_failed)
    ∷ ("structured_output_too_large", planning_contract_failed)
    ∷ ("unexpected_eof", model_runtime_protocol_failed)
    ∷ ("unexpected_exit", model_runtime_protocol_failed)
    ∷ ("invalid_pi_record", model_runtime_protocol_failed)
    ∷ ("invalid_utf8", model_runtime_protocol_failed)
    ∷ ("line_too_large", model_runtime_protocol_failed)
    ∷ ("truncated_pi_record", model_runtime_protocol_failed)
    ∷ ("malformed_pi_json", model_runtime_protocol_failed)
    ∷ ("malformed_pi_record", model_runtime_protocol_failed)
    ∷ ("invalid_message_delta", model_runtime_protocol_failed)
    ∷ ("unknown_message_delta", model_runtime_protocol_failed)
    ∷ ("unknown_pi_event", model_runtime_protocol_failed)
    ∷ ("opencode_model_failed", model_response_failed)
    ∷ ("opencode_runtime_failed", coding_agent_runtime_failed)
    ∷ ("codex_model_failed", model_response_failed)
    ∷ ("codex_protocol_failed", model_runtime_protocol_failed)
    ∷ ("codex_structured_output_invalid", planning_contract_failed)
    ∷ ("codex_runtime_failed", coding_agent_runtime_failed)
    ∷ ("codex_invalid_environment", coding_agent_runtime_failed)
    ∷ ("codex_spawn_failed", coding_agent_runtime_failed)
    ∷ ("codex_bridge_failed", coding_agent_runtime_failed)
    ∷ ("codex_profile_unsupported", coding_agent_runtime_failed)
    ∷ ("codex_thinking_unsupported", coding_agent_runtime_failed)
    ∷ ("opencode_capability_unavailable", agent_capability_unavailable)
    ∷ []
