-- ===== src/Workflow/Delivery.antt =====
-- packages/core/src/workflow/repository.ts, `InMemoryWorkflowRepository`: the delivery of events.
use dina_mobile.Prelude.{
  ℕ, ◌+◌, String, Bool, true, false, Option, none, some, List, [], ◌∷◌, ◌==◌, ◌&&◌, keep, take,
  sort_by, leb, nat_eq, if◌then◌else◌, is_some, find,
}
use dina_mobile.Workflow.Domain.{WorkflowEvent}
use dina_mobile.Workflow.Repo.{Repo}

unfoldable pub list_events_for_task : String → Repo → List WorkflowEvent
list_events_for_task task_id r = sort_by (λ e. e.at) (keep (λ e. e.task_id == task_id) r.events)

-- No time is set, or it has come.
abbrev pub is_due : Option ℕ → ℕ → Bool
is_due none now_ms = true
is_due (some t) now_ms = leb t now_ms

unfoldable pub undelivered : ℕ → ℕ → WorkflowEvent → Bool
undelivered now_ms since_ms e =
    e.needs_delivery && is_due e.next_delivery_at now_ms && leb since_ms e.at

unfoldable pub list_undelivered_events : ℕ → ℕ → ℕ → Repo → List WorkflowEvent
unfolding undelivered
list_undelivered_events now_ms since_ms limit r =
    take limit (sort_by (λ e. e.at) (keep (undelivered now_ms since_ms) r.events))

unfoldable pub list_all_events_since : ℕ → ℕ → Repo → List WorkflowEvent
list_all_events_since since_ms limit r =
    take limit (sort_by (λ e. e.at) (keep (λ e. leb since_ms e.at) r.events))

-- `this.events.find((x) => x.event_id === eventId)`, and the assignments to what it finds.
unfoldable pub update_first :
    ℕ → (WorkflowEvent → WorkflowEvent) → List WorkflowEvent → List WorkflowEvent
update_first event_id f [] = []
update_first event_id f (e ∷ es) =
    if nat_eq e.event_id event_id then f e ∷ es else e ∷ update_first event_id f es

mark_event : ℕ → (WorkflowEvent → WorkflowEvent) → Repo → Repo × Bool
unfolding update_first
mark_event event_id f r =
    if is_some (find (λ e. nat_eq e.event_id event_id) r.events)
    then (record r { events = update_first event_id f r.events }, true)
    else (r, false)

unfoldable pub mark_event_delivered : ℕ → ℕ → Repo → Repo × Bool
unfolding mark_event
mark_event_delivered event_id now_ms =
    mark_event event_id (λ e. record e {
      needs_delivery = false;
      delivered_at = some now_ms;
      delivery_failed = false;
    })

unfoldable pub mark_event_acknowledged : ℕ → ℕ → Repo → Repo × Bool
unfolding mark_event
mark_event_acknowledged event_id now_ms =
    mark_event event_id (λ e. record e { acknowledged_at = some now_ms })

unfoldable pub mark_event_delivery_failed : ℕ → ℕ → ℕ → Repo → Repo × Bool
unfolding mark_event
mark_event_delivery_failed event_id next_delivery_at now_ms = mark_event event_id (λ e. record e {
  delivery_failed = true;
  delivery_attempts = e.delivery_attempts + 1;
  next_delivery_at = some next_delivery_at;
})
