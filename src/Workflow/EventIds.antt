-- ===== src/Workflow/EventIds.antt =====
-- packages/core/src/workflow/repository.ts, `InMemoryWorkflowRepository`: the ids of events, given by
-- `appendEvent` and by the pushes of `claimDelegationTask` and `expireLeasedTasks`.
use dina_mobile.Prelude.{
  ℕ, ◌+◌, ◌<◌, ◌≤◌, String, true, false, some, List, ◌≡◌, refl, arith, ◌∙◌, ap, ok, [], ◌∷◌, ◌++◌,
  nat_eq, All, All-append, All-map, is_some, find,
}
use mathlib.Core.List.{append_assoc}
use dina_mobile.Workflow.Domain.{WorkflowTask, WorkflowEvent, text, num, object}
use dina_mobile.Workflow.Repo.{Repo, event, append_event}
use dina_mobile.Workflow.Lease.{claim_delegation_task, claim_winner}
use dina_mobile.Workflow.Claims.{claim_inv}
use dina_mobile.Workflow.Delivery.{update_first, mark_event_delivered}

-- Every stored event has an id that `append_event` will not give again.
abbrev pub IsFresh : Repo → Type 0
IsFresh r = All (λ e. e.event_id < r.next_event_id) r.events

IsFresh-weaken :
    (n m : ℕ) (es : List WorkflowEvent)
    → n ≤ m
    → All (λ e. e.event_id < n) es
    → All (λ e. e.event_id < m) es
IsFresh-weaken n m es h a =
    All-map (λ e. e.event_id < n) (λ e. e.event_id < m) (λ e lt. omega arith) es a

-- An event that `append_event` adds has a new id, and the ids stay fresh.
pub append_event-IsFresh : (e : WorkflowEvent) (r : Repo) → IsFresh r → IsFresh (append_event e r).0
unfolding append_event
append_event-IsFresh e r h =
    All-append (λ x. x.event_id < r.next_event_id + 1) r.events
      (record e { event_id = r.next_event_id } ∷ [])
      (IsFresh-weaken r.next_event_id (r.next_event_id + 1) r.events (omega arith) h)
      (omega arith, tt)

update_first-append :
    (n : ℕ) (f : WorkflowEvent → WorkflowEvent) (xs ys : List WorkflowEvent)
    → All (λ e. e.event_id < n) xs
    → update_first n f (xs ++ ys) ≡ xs ++ update_first n f ys
unfolding update_first
update_first-append n f [] ys h = refl
update_first-append n f (x ∷ xs) ys h = ground (arith, update_first-append n f xs ys h.1)

update_first_head :
    (n : ℕ) (f : WorkflowEvent → WorkflowEvent) (y : WorkflowEvent) (ys : List WorkflowEvent)
    → y.event_id ≡ n
    → update_first n f (y ∷ ys) ≡ f y ∷ ys
unfolding update_first
update_first_head n f y ys h = ground arith

find-append :
    (n : ℕ) (xs : List WorkflowEvent) (y : WorkflowEvent) (ys : List WorkflowEvent)
    → y.event_id ≡ n
    → is_some (find (λ e. nat_eq e.event_id n) (xs ++ y ∷ ys)) ≡ true
find-append n [] y ys h = ground arith
find-append n (x ∷ xs) y ys h = ground (arith, find-append n xs y ys h)

abbrev pub delivered : ℕ → WorkflowEvent → WorkflowEvent
delivered now_ms e = record e {
  needs_delivery = false;
  delivered_at = some now_ms;
  delivery_failed = false;
}

-- The first event with the id is the one that is marked.
mark_at :
    (now_ms : ℕ) (r : Repo) (xs : List WorkflowEvent) (y : WorkflowEvent) (ys : List WorkflowEvent)
    → r.events ≡ xs ++ y ∷ ys
    → All (λ e. e.event_id < y.event_id) xs
    → (mark_event_delivered y.event_id now_ms r).0.events ≡ xs ++ delivered now_ms y ∷ ys
unfolding mark_event_delivered
mark_at now_ms r xs y ys e h =
    rw (e, find-append y.event_id xs y ys refl)
      (update_first-append y.event_id (delivered now_ms) xs (y ∷ ys) h
        ∙ ap (λ l. xs ++ l) (update_first_head y.event_id (delivered now_ms) y ys refl))

-- If every stored event id is below the counter, marking delivered the id that `append_event` returns
-- marks the event that was appended, and no other event.
pub append_then_deliver :
    (e : WorkflowEvent) (r : Repo) (now_ms : ℕ)
    → IsFresh r
    → (mark_event_delivered (append_event e r).1 now_ms (append_event e r).0).0.events
      ≡ r.events ++ delivered now_ms (record e { event_id = r.next_event_id }) ∷ []
unfolding append_event
append_then_deliver e r now_ms h =
    mark_at now_ms (append_event e r).0 r.events (record e { event_id = r.next_event_id }) [] refl h

claim_winner_then_deliver :
    (agent_did : String) (now_ms lease_ms : ℕ) (t : WorkflowTask) (r : Repo) (e : WorkflowEvent)
    (later_ms : ℕ)
    → IsFresh r
    → let r' = (claim_winner agent_did now_ms lease_ms (some t) r).0 in
      (c : WorkflowEvent) × (c.event_kind ≡ "claimed")
      × ((mark_event_delivered (append_event e r').1 later_ms (append_event e r').0).0.events
          ≡ r.events ++ delivered later_ms c ∷ record e { event_id = r.next_event_id + 1 } ∷ [])
unfolding claim_winner append_event
claim_winner_then_deliver agent_did now_ms lease_ms t r e later_ms h =
    let n = r.next_event_id + 1 in
    let r' = (claim_winner agent_did now_ms lease_ms (some t) r).0 in
    let c : WorkflowEvent =
      record (event t.id now_ms "claimed" false
        (object (text "agent_did" agent_did ∷ num "lease_expires_at" (now_ms + lease_ms) ∷ []))) {
          event_id = n;
        } in
    (
      c,
      refl,
      mark_at later_ms (append_event e r').0 r.events c (record e { event_id = n } ∷ [])
          (append_assoc r.events (c ∷ []) (record e { event_id = n } ∷ []))
          (IsFresh-weaken r.next_event_id n r.events (omega arith) h),
    )

-- If every stored event id is below the counter: after a claim, the id that `append_event` returns for the next event `e` belongs to the event of
-- the claim as well: marking it delivered marks the claim's event, and `e` stays as it was.
pub claim_hides_next_event :
    (agent_did : String) (now_ms lease_ms : ℕ) (r r' : Repo) (t : WorkflowTask) (e : WorkflowEvent)
    (later_ms : ℕ)
    → IsFresh r
    → claim_delegation_task agent_did now_ms lease_ms r ≡ ok (r', some t)
    → (c : WorkflowEvent) × (c.event_kind ≡ "claimed")
      × ((mark_event_delivered (append_event e r').1 later_ms (append_event e r').0).0.events
          ≡ r.events ++ delivered later_ms c ∷ record e { event_id = r.next_event_id + 1 } ∷ [])
claim_hides_next_event agent_did now_ms lease_ms r r' t e later_ms h claimed =
    let (w, _, after, _) = claim_inv agent_did now_ms lease_ms r r' t claimed in
    rw after (claim_winner_then_deliver agent_did now_ms lease_ms w r e later_ms h)
