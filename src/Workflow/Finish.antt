-- ===== src/Workflow/Finish.antt =====
-- packages/core/src/workflow/repository.ts, `InMemoryWorkflowRepository`: the operations that end a
-- task, each with its event. `parse` is `JSON.parse`.
use dina_mobile.Prelude.{
  ℕ, String, Bool, true, not, none, some, List, [], ◌∷◌, ◌==◌, ◌&&◌, keep, if◌then◌else◌,
}
use dina_mobile.JsMap
use dina_mobile.Workflow.Domain.{
  completed, failed, cancelled, WorkflowTask, Details, text, object, Parsed, fields,
  string_or_empty, is_terminal,
}
use dina_mobile.Workflow.Repo.{Repo, store_task, event, append_event}
use dina_mobile.Workflow.Lease.{is_past}

unfoldable pub complete_with_details :
    String → String → String → String → Details → ℕ → Repo → Repo × ℕ
unfolding store_task append_event is_terminal
complete_with_details id agent_did result_summary result_json event_details now_ms r =
    elim (JsMap.get id r.tasks) [
      | none ↦ (r, 0)
      | some t ↦
          if is_terminal t.status
          then (r, 0)
          else append_event (event id now_ms "completed" true event_details) (
              store_task id
                (record t {
                  status = completed;
                  result = some result_json;
                  result_summary = result_summary;
                  agent_did = some agent_did;
                  updated_at = now_ms;
                })
                r)
    ]

unfoldable pub fail : String → String → String → ℕ → Repo → Repo × ℕ
unfolding store_task append_event is_terminal
fail id agent_did error_msg now_ms r = elim (JsMap.get id r.tasks) [
  | none ↦ (r, 0)
  | some t ↦
      if is_terminal t.status
      then (r, 0)
      else append_event (event id now_ms "failed" true (object (text "error" error_msg ∷ []))) (
          store_task id
            (record t {
              status = failed;
              error = some error_msg;
              agent_did = some agent_did;
              updated_at = now_ms;
            })
            r)
]

unfoldable pub cancel : String → String → ℕ → Repo → Repo × ℕ
unfolding store_task append_event is_terminal
cancel id reason now_ms r = elim (JsMap.get id r.tasks) [
  | none ↦ (r, 0)
  | some t ↦
      if is_terminal t.status
      then (r, 0)
      else append_event (event id now_ms "cancelled" true (object (text "reason" reason ∷ [])))
          (store_task id (record t { status = cancelled; updated_at = now_ms }) r)
]

unfoldable pub has_expired : ℕ → WorkflowTask → Bool
unfolding is_terminal
has_expired now_sec t = not (is_terminal t.status) && is_past t.expires_at now_sec

unfoldable pub expired_task : ℕ → WorkflowTask → WorkflowTask
expired_task now_ms t = record t { status = failed; error = some "expired"; updated_at = now_ms }

-- The loop's body at the task `t` of the map.
unfoldable pub expire_task : ℕ → ℕ → WorkflowTask → WorkflowTask
unfolding has_expired expired_task
expire_task now_sec now_ms t = if has_expired now_sec t then expired_task now_ms t else t

module _ (parse : String → Parsed) where
  -- The field of the payload, if it is a text; "" if the payload is empty or does not parse.
  unfoldable pub payload_text : String → String → String
  payload_text field payload =
      if payload == ""
      then ""
      else elim (parse payload) [ fields p ↦ string_or_empty (JsMap.get field p) | _ ↦ "" ]

  unfoldable pub infer_capability : WorkflowTask → String
  unfolding payload_text
  infer_capability task = payload_text "capability" task.payload

  unfoldable pub infer_service_name : WorkflowTask → String
  unfolding payload_text
  infer_service_name task = payload_text "service_name" task.payload

  unfoldable pub append_expired_events : ℕ → List WorkflowTask → Repo → Repo
  unfolding append_event infer_capability infer_service_name
  append_expired_events now_ms [] r = r
  append_expired_events now_ms (t ∷ ts) r =
      append_expired_events now_ms ts
        (append_event
          (event t.id now_ms "failed" true (
            object (
              text "response_status" "expired"
              ∷ text "capability" (infer_capability t)
              ∷ text "service_name" (infer_service_name t)
              ∷ text "error" "expired"
              ∷ [])))
          r).0

  -- As `expire_leased_tasks`: the tasks are changed one by one, the events follow the map's order.
  -- The tasks that are returned are copies from before the change.
  unfoldable pub expire_tasks : ℕ → ℕ → Repo → Repo × List WorkflowTask
  unfolding expire_task append_expired_events
  expire_tasks now_sec now_ms r =
      let due = keep (has_expired now_sec) (JsMap.values r.tasks) in
      (
        append_expired_events now_ms due
            (record r { tasks = JsMap.update_all (expire_task now_sec now_ms) r.tasks }),
        due,
      )
