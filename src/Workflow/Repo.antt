-- ===== src/Workflow/Repo.antt =====
-- packages/core/src/workflow/repository.ts, `InMemoryWorkflowRepository`: its state, the core reads
-- and writes, and the events.
use dina_mobile.Prelude.{
  ℕ, ◌+◌, String, Bool, true, false, not, Option, none, some, List, [], ◌∷◌, ◌++◌, ◌==◌, ◌&&◌, find,
  keep, any, sort_by, if◌then◌else◌, Result, ok, err,
}
use dina_mobile.JsMap
use dina_mobile.JsMap.{JsMap}
use dina_mobile.Workflow.Domain.{
  State, WorkflowTask, WorkflowEvent, Details, same_state, is_terminal,
}

pub record Repo : Type 0 where
  pub tasks : JsMap WorkflowTask
  pub events : List WorkflowEvent
  pub next_event_id : ℕ

pub data RepoError : Type 0 where
  duplicate_id duplicate_idempotency duplicate_correlation bad_lease type_error : RepoError

abbrev pub new_repo : Repo
new_repo = record { tasks = []; events = []; next_event_id = 1 }

abbrev pub holds : Option String → String → Bool
holds none s = false
holds (some t) s = t == s

-- A stored task that blocks a new one with the idempotency key `idem`.
unfoldable pub blocks_key : String → WorkflowTask → Bool
unfolding is_terminal
blocks_key idem other = holds other.idempotency_key idem && not (is_terminal other.status)

-- The check on the key of a new task; none and "" are not checked.
unfoldable pub key_taken : Option String → List WorkflowTask → Bool
unfolding blocks_key
key_taken none others = false
key_taken (some idem) others = not (idem == "") && any (blocks_key idem) others

unfoldable pub create : WorkflowTask → Repo → Result RepoError Repo
unfolding key_taken
create task r =
    if JsMap.has task.id r.tasks
    then err duplicate_id
    else if key_taken task.idempotency_key (JsMap.values r.tasks)
    then err duplicate_idempotency
    else ok (record r { tasks = JsMap.set task.id task r.tasks })

unfoldable pub get_by_id : String → Repo → Option WorkflowTask
get_by_id id r = JsMap.get id r.tasks

unfoldable pub get_by_proposal_id : String → Repo → Option WorkflowTask
get_by_proposal_id proposal_id r =
    if proposal_id == ""
    then none
    else find (λ t. holds t.proposal_id proposal_id) (JsMap.values r.tasks)

unfoldable pub get_by_idempotency_key : String → Repo → Option WorkflowTask
get_by_idempotency_key key r =
    if key == "" then none else find (λ t. holds t.idempotency_key key) (JsMap.values r.tasks)

unfoldable pub get_active_by_idempotency_key : String → Repo → Option WorkflowTask
unfolding blocks_key
get_active_by_idempotency_key key r =
    if key == "" then none else find (blocks_key key) (JsMap.values r.tasks)

unfoldable pub get_by_correlation_id : String → Repo → List WorkflowTask
get_by_correlation_id corr_id r =
    if corr_id == ""
    then []
    else sort_by (λ t. t.created_at)
        (keep (λ t. holds t.correlation_id corr_id) (JsMap.values r.tasks))

-- An assignment to fields of the stored object at `id`, which becomes `t`.
unfoldable pub store_task : String → WorkflowTask → Repo → Repo
store_task id t r = record r { tasks = JsMap.set id t r.tasks }

unfoldable pub transition : String → State → State → ℕ → Repo → Repo × Bool
unfolding store_task same_state
transition id from to updated_at_ms r = elim (JsMap.get id r.tasks) [
  | none ↦ (r, false)
  | some t ↦
      if same_state t.status from
      then (store_task id (record t { status = to; updated_at = updated_at_ms }) r, true)
      else (r, false)
]

unfoldable pub set_run_id : String → String → ℕ → Repo → Repo × Bool
unfolding store_task
set_run_id id run_id updated_at_ms r = elim (JsMap.get id r.tasks) [
  | none ↦ (r, false)
  | some t ↦ (store_task id (record t { run_id = some run_id; updated_at = updated_at_ms }) r, true)
]

unfoldable pub set_internal_stash : String → Option String → ℕ → Repo → Repo × Bool
unfolding store_task
set_internal_stash id stash updated_at_ms r = elim (JsMap.get id r.tasks) [
  | none ↦ (r, false)
  | some t ↦
      (store_task id (record t { internal_stash = stash; updated_at = updated_at_ms }) r, true)
]

-- The events that the code writes have no delivery times; `append_event` fills in the id.
abbrev pub event : String → ℕ → String → Bool → Details → WorkflowEvent
event task_id at kind needs_delivery details = record {
  event_id = 0;
  task_id = task_id;
  at = at;
  event_kind = kind;
  needs_delivery = needs_delivery;
  delivery_attempts = 0;
  next_delivery_at = none;
  delivering_until = none;
  delivered_at = none;
  acknowledged_at = none;
  delivery_failed = false;
  details = details;
}

-- `const id = this.nextEventId; this.nextEventId += 1; push({ ...event, event_id: id })`
unfoldable pub append_event : WorkflowEvent → Repo → Repo × ℕ
append_event e r = (
  record r {
    events = r.events ++ record e { event_id = r.next_event_id } ∷ [];
    next_event_id = r.next_event_id + 1;
  },
  r.next_event_id,
)

-- `push({ event_id: ++this.nextEventId, ... })`
unfoldable pub push_event : WorkflowEvent → Repo → Repo
push_event e r = record r {
  events = r.events ++ record e { event_id = r.next_event_id + 1 } ∷ [];
  next_event_id = r.next_event_id + 1;
}

pub size : Repo → ℕ
size r = JsMap.size r.tasks
