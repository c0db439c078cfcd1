-- ===== src/Workflow/Lifecycle.antt =====
-- packages/core/src/workflow/service.ts, `WorkflowService`: `create`, `approve`, `complete`, `fail`,
-- `cancel` and `deliverEventsForTask`. `now_ms` is what `nowMsFn` returns, `stash_ms` what it
-- returns where the bridge reads it once more.
use dina_mobile.Prelude.{
  ℕ, String, Bool, true, false, not, Option, none, some, List, [], ◌∷◌, ◌==◌, ◌&&◌, nat_eq, keep,
  if◌then◌else◌, or_default, Result, ok, err,
}
use dina_mobile.Workflow.Domain.{
  State, created, pending_approval, queued, completed, failed, cancelled, WorkflowTask,
  WorkflowEvent, Details, raw, text, object, Parsed, state_name, is_valid_transition,
}
use dina_mobile.Workflow.Repo
use dina_mobile.Workflow.Repo.{Repo, get_by_id, transition, event, append_event}
use dina_mobile.Workflow.Finish
use dina_mobile.Workflow.Delivery.{list_events_for_task}
use dina_mobile.Workflow.Service.{
  Service, ServiceError, validation, transition_error, conflict, Exec, CreateInput, BridgeContext,
  validate_input, bridge_service_query_completion,
}

-- The task that `create` stores.
unfoldable pub new_task : CreateInput → ℕ → WorkflowTask
new_task input now_ms = record {
  id = input.id;
  kind = input.kind;
  status = or_default input.initial_state created;
  correlation_id = input.correlation_id;
  parent_id = input.parent_id;
  proposal_id = input.proposal_id;
  priority = or_default input.priority "normal";
  description = input.description;
  payload = input.payload;
  result = none;
  result_summary = "";
  policy = or_default input.policy "{}";
  error = none;
  requested_runner = none;
  assigned_runner = none;
  agent_did = none;
  run_id = none;
  progress_note = none;
  lease_expires_at = none;
  origin = some (or_default input.origin "");
  session_name = input.session_name;
  idempotency_key = input.idempotency_key;
  expires_at = input.expires_at_sec;
  next_run_at = none;
  recurrence = none;
  internal_stash = none;
  created_at = now_ms;
  updated_at = now_ms;
}

-- The event that `create` emits.
unfoldable pub created_event : WorkflowTask → ℕ → WorkflowEvent
created_event task now_ms = event task.id now_ms "created" true (
    object (
      text "kind" task.kind
      ∷ text "state" (state_name task.status)
      ∷ text "correlation_id" (or_default task.correlation_id "")
      ∷ []))

unfoldable pub create : CreateInput → ℕ → Exec WorkflowTask
create input now_ms s = elim (validate_input input) [
  | some field ↦ (err (validation field), s)
  | none ↦
      let task = new_task input now_ms in
      elim (Repo.create task s.repo) [
        | err e ↦ (err (conflict e), s)
        | ok r ↦ (ok task, record s { repo = (append_event (created_event task now_ms) r).0 })
      ]
]

-- The state that a re-read task is in, or the state read before.
abbrev fresh_status : Option WorkflowTask → State → State
fresh_status none before = before
fresh_status (some t) before = t.status

-- `approve` after its transition.
unfoldable pub finish_approve : WorkflowTask → String → ℕ → Repo × Bool → Exec WorkflowTask
unfolding get_by_id
finish_approve task id now_ms (r, false) s = (
  err (transition_error (fresh_status (get_by_id id r) task.status) queued),
  record s { repo = r },
)
finish_approve task id now_ms (r, true) s =
    let r' =
      (append_event
        (event id now_ms "approved" true
          (object (text "task_payload" task.payload ∷ text "kind" task.kind ∷ [])))
        r).0 in
    (ok (or_default (get_by_id id r') task), record s { repo = r' })

unfoldable pub approve : String → ℕ → Exec WorkflowTask
unfolding finish_approve
approve id now_ms s = elim (get_by_id id s.repo) [
  | none ↦ (err (validation "id"), s)
  | some task ↦
      if is_valid_transition task.status queued
      then finish_approve task id now_ms (transition id pending_approval queued now_ms s.repo) s
      else (err (transition_error task.status queued), s)
]

-- `then` at an outcome: the value is replaced, an error stays.
abbrev with_value :
    {A B : Type 0} → B → Result ServiceError A × Service → Result ServiceError B × Service
with_value b (ok a, s) = (ok b, s)
with_value b (err e, s) = (err e, s)

module _ (parse : String → Parsed) (stringify : BridgeContext → String) where
  -- What `complete` and `fail` do after the store's write, whose event id is `event_id`.
  unfoldable pub finish_end :
      WorkflowTask → State → String → Details → ℕ → Repo × ℕ → Exec WorkflowTask
  unfolding get_by_id
  finish_end task to id result_json stash_ms (r, event_id) s =
      if nat_eq event_id 0
      then (err (transition_error task.status to), record s { repo = r })
      else let updated = or_default (get_by_id id r) task in
        with_value updated (
          bridge_service_query_completion parse stringify updated result_json stash_ms
            (record s { repo = r }))

  unfoldable pub complete : String → String → String → String → ℕ → ℕ → Exec WorkflowTask
  unfolding finish_end
  complete id result_json result_summary agent_did now_ms stash_ms s = elim (get_by_id id s.repo) [
    | none ↦ (err (validation "id"), s)
    | some task ↦
        if is_valid_transition task.status completed
        then finish_end task completed id (raw result_json) stash_ms
            (Finish.complete_with_details id agent_did result_summary result_json
              (object (text "state" "completed" ∷ [])) now_ms s.repo)
            s
        else (err (transition_error task.status completed), s)
  ]

  unfoldable pub fail : String → String → String → ℕ → ℕ → Exec WorkflowTask
  unfolding finish_end
  fail id error_msg agent_did now_ms stash_ms s = elim (get_by_id id s.repo) [
    | none ↦ (err (validation "id"), s)
    | some task ↦
        if is_valid_transition task.status failed
        then finish_end task failed id
            (object (text "status" "error" ∷ text "error" error_msg ∷ [])) stash_ms
            (Finish.fail id agent_did error_msg now_ms s.repo) s
        else (err (transition_error task.status failed), s)
  ]

-- What `cancel` does after the store's write.
unfoldable pub finish_cancel : WorkflowTask → String → Repo × ℕ → Exec WorkflowTask
unfolding get_by_id
finish_cancel task id (r, event_id) s =
    if nat_eq event_id 0
    then (err (transition_error task.status cancelled), record s { repo = r })
    else (ok (or_default (get_by_id id r) task), record s { repo = r })

unfoldable pub cancel : String → String → ℕ → Exec WorkflowTask
unfolding finish_cancel
cancel id reason now_ms s = elim (get_by_id id s.repo) [
  | none ↦ (err (validation "id"), s)
  | some task ↦
      if is_valid_transition task.status cancelled
      then finish_cancel task id (Finish.cancel id reason now_ms s.repo) s
      else (err (transition_error task.status cancelled), s)
]

abbrev wants_kind : Option String → WorkflowEvent → Bool
wants_kind none e = true
wants_kind (some k) e = e.event_kind == k

abbrev wants_delivery : Option Bool → WorkflowEvent → Bool
wants_delivery none e = true
wants_delivery (some true) e = e.needs_delivery
wants_delivery (some false) e = not e.needs_delivery

-- Both filters are optional.
unfoldable pub deliver_events_for_task :
    String → Option String → Option Bool → Service → List WorkflowEvent
deliver_events_for_task task_id kind needs_delivery s =
    keep (λ e. wants_kind kind e && wants_delivery needs_delivery e)
      (list_events_for_task task_id s.repo)
