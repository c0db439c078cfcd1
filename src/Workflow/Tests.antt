-- ===== src/Workflow/Tests.antt =====
-- packages/core/src/workflow: runs on concrete stores, and the theorems at such stores.
use dina_mobile.Prelude.{
  ◌⊎◌, ℕ, String, true, false, none, some, ◌≡◌, ◌≢◌, refl, arith, sort_by, ok, err, [], ◌∷◌,
}
use dina_mobile.Workflow.Availability.{FoundNothing, HasTaken, claim_returns}
use dina_mobile.JsMap
use dina_mobile.JsMap.{JsMap}
use dina_mobile.Workflow.Domain.{
  State, queued, running, raw, text, num, object, is_valid_transition, completed, WorkflowTask,
  WorkflowEvent, Parsed, fields,
}
use dina_mobile.Workflow.Repo.{Repo, event, get_by_id, append_event}
use dina_mobile.Workflow.Lease.{
  claim_winner, claim_delegation_task, claimable, candidates, heartbeat_task,
}
use dina_mobile.Workflow.Delivery.{mark_event_delivered}
use dina_mobile.Workflow.Service.{Service, BridgeContext, transition_error}
use dina_mobile.Workflow.Lifecycle.{complete}
use dina_mobile.Workflow.Atomicity.{complete_op, run, run_atomic}
use dina_mobile.Workflow.Transitions.{run-allowed}
use dina_mobile.Workflow.Moves.{allowed, status_of}
use dina_mobile.Workflow.Claims.{IsStore, claim_exclusive}
use dina_mobile.Workflow.EventIds.{delivered, claim_hides_next_event}

-- A delegation in the state `status`.
abbrev delegation : String → State → ℕ → WorkflowTask
delegation id status created_at = record {
  id = id;
  kind = "delegation";
  status = status;
  correlation_id = none;
  parent_id = none;
  proposal_id = none;
  priority = "normal";
  description = "d";
  payload = "{}";
  result = none;
  result_summary = "";
  policy = "{}";
  error = none;
  requested_runner = none;
  assigned_runner = none;
  agent_did = none;
  run_id = none;
  progress_note = none;
  lease_expires_at = none;
  origin = none;
  session_name = none;
  idempotency_key = none;
  expires_at = none;
  next_run_at = none;
  recurrence = none;
  internal_stash = none;
  created_at = created_at;
  updated_at = created_at;
}

abbrev two_queued : Repo
two_queued = record {
  tasks = ("a", delegation "a" queued 20) ∷ ("b", delegation "b" queued 10) ∷ [];
  events = [];
  next_event_id = 1;
}

abbrev service_of : Repo → Service
service_of r = record { repo = r; bridge_wired = true; bridge_in_flight = []; sends = [] }

-- A parser that reads every payload as an object with no field.
abbrev no_fields : String → Parsed
no_fields s = fields []

abbrev no_text : BridgeContext → String
no_text c = "{}"

-- `b` is the older one.
abbrev winner_b : WorkflowTask
winner_b = record (delegation "b" queued 10) {
  status = running;
  agent_did = some "did:x";
  lease_expires_at = some 6000;
  updated_at = 5000;
}

abbrev winner_a : WorkflowTask
winner_a = record (delegation "a" queued 20) {
  status = running;
  agent_did = some "did:y";
  lease_expires_at = some 8000;
  updated_at = 6000;
}

abbrev claimed_event : String → ℕ → String → ℕ → ℕ → WorkflowEvent
claimed_event id at agent until n =
    record (event id at "claimed" false
      (object (text "agent_did" agent ∷ num "lease_expires_at" until ∷ []))) { event_id = n }

abbrev after_claim : Repo
after_claim = record {
  tasks = ("a", delegation "a" queued 20) ∷ ("b", winner_b) ∷ [];
  events = claimed_event "b" 5000 "did:x" 6000 2 ∷ [];
  next_event_id = 2;
}

abbrev after_second_claim : Repo
after_second_claim = record {
  tasks = ("a", winner_a) ∷ ("b", winner_b) ∷ [];
  events = claimed_event "b" 5000 "did:x" 6000 2 ∷ claimed_event "a" 6000 "did:y" 8000 3 ∷ [];
  next_event_id = 3;
}

claim_two : claim_delegation_task "did:x" 5000 1000 two_queued ≡ ok (after_claim, some winner_b)
unfolding claim_delegation_task claim_winner candidates claimable sort_by JsMap.values JsMap.set
claim_two = refl

claim_again :
    claim_delegation_task "did:y" 6000 2000 after_claim ≡ ok (after_second_claim, some winner_a)
unfolding claim_delegation_task claim_winner candidates claimable sort_by JsMap.values JsMap.set
claim_again = refl

two_queued-IsStore : IsStore two_queued
unfolding JsMap.has
two_queued-IsStore = ((refl, (refl, tt)), (refl, (refl, tt)))

claim_exclusive_example : ◌≢◌ {A = String} "a" "b"
claim_exclusive_example =
    claim_exclusive "did:x" "did:y" 5000 1000 6000 2000 two_queued after_claim after_second_claim
      winner_b winner_a two_queued-IsStore claim_two claim_again

claim_hides_next_event_example :
    (c : WorkflowEvent) × (c.event_kind ≡ "claimed")
    × ((mark_event_delivered
          (append_event (event "b" 7000 "completed" true (raw "{}")) after_claim).1
          8000
          (append_event (event "b" 7000 "completed" true (raw "{}")) after_claim).0).0.events
        ≡ delivered 8000 c
          ∷ record (event "b" 7000 "completed" true (raw "{}")) { event_id = 2 }
          ∷ [])
claim_hides_next_event_example =
    claim_hides_next_event "did:x" 5000 1000 two_queued after_claim winner_b
      (event "b" 7000 "completed" true (raw "{}")) 8000 tt claim_two

abbrev renewed : Repo
renewed = record after_claim {
  tasks =
      ("a", delegation "a" queued 20)
      ∷ ("b", record winner_b { lease_expires_at = some 6500; updated_at = 5500 })
      ∷ [];
}

heartbeat_b : heartbeat_task "b" "did:x" 5500 1000 after_claim ≡ ok (renewed, true)
unfolding heartbeat_task JsMap.get JsMap.set
heartbeat_b = refl

-- Completing a task that is still queued is refused, and nothing is written.
complete_queued :
    (run no_fields no_text (complete_op "a" "{}" "done" "did:x" 9 9) (service_of two_queued)).0
    ≡ err (transition_error queued completed)
unfolding run complete get_by_id JsMap.get is_valid_transition
complete_queued = refl

run_atomic_example :
    (run no_fields no_text (complete_op "a" "{}" "done" "did:x" 9 9) (service_of two_queued)).1
    ≡ service_of two_queued
run_atomic_example =
    run_atomic no_fields no_text (complete_op "a" "{}" "done" "did:x" 9 9) (service_of two_queued)
      (transition_error queued completed) (omega arith) complete_queued (λ e. cc)

run-allowed_example :
    allowed (status_of "b" after_claim) (
      status_of "b"
        (run no_fields no_text
          (complete_op "b" "{}" "done" "did:x" 9 9)
          (service_of after_claim)).1.repo)
    ≡ true
run-allowed_example =
    run-allowed no_fields no_text "b" (complete_op "b" "{}" "done" "did:x" 9 9)
      (service_of after_claim)

claim_returns_example :
    (FoundNothing 5000 two_queued
      × (claim_delegation_task "did:x" 5000 1000 two_queued ≡ ok (two_queued, none)))
    ⊎ ((w : WorkflowTask) × (r' : Repo) × (t : WorkflowTask) × (claim_delegation_task "did:x" 5000
            1000 two_queued
          ≡ ok (r', some t))
        × HasTaken "did:x" 5000 1000 two_queued w r' t)
claim_returns_example = claim_returns "did:x" 5000 1000 two_queued two_queued-IsStore (omega arith)
