-- ===== src/Workflow/Transitions.antt =====
-- packages/core/src/workflow/service.ts over repository.ts: how the states of tasks may change.
use dina_mobile.Prelude.{
  ℕ, String, true, Option, none, some, ◌≡◌, refl, inl, inr, arith, eq_iff, Option-cases,
  Result-cases, or_default, ok, [], ◌∷◌,
}
use dina_mobile.JsMap
use dina_mobile.JsMap.{get-set}
use dina_mobile.Workflow.Domain.{
  State, created, WorkflowTask, Details, raw, text, object, Parsed, Parsed-cases, pending_approval,
  queued, completed, failed, is_valid_transition,
}
use dina_mobile.Workflow.Repo
use dina_mobile.Workflow.Repo.{
  Repo, get_by_id, store_task, transition, append_event, set_internal_stash,
}
use dina_mobile.Workflow.Finish
use dina_mobile.Workflow.Service.{
  Service, CreateInput, BridgeContext, is_valid_initial_state, validate_input, absent_or,
  bridge_service_query_completion, start_bridge, bridge_context,
}
use dina_mobile.Workflow.Lifecycle.{finish_end, create, new_task, approve, complete, fail, cancel}
use dina_mobile.Workflow.Atomicity.{Op, create_op, approve_op, complete_op, fail_op, cancel_op, run}
use dina_mobile.Workflow.Moves.{
  status_of, allowed, allowed_self, status-set_internal_stash, allowed-transition, allowed_complete,
  allowed-fail, allowed-cancel,
}

initial_or_created :
    (o : Option State)
    → absent_or is_valid_initial_state o ≡ true
    → is_valid_initial_state (or_default o created) ≡ true
unfolding is_valid_initial_state
initial_or_created none h = refl
initial_or_created (some s) h = h

validated_state :
    (input : CreateInput)
    → validate_input input ≡ none
    → is_valid_initial_state (or_default input.initial_state created) ≡ true
unfolding validate_input
validated_state input h = ground (arith, initial_or_created input.initial_state)

approval_queues : is_valid_transition pending_approval queued ≡ true
unfolding is_valid_transition
approval_queues = refl

allowed-create :
    (j : String) (input : CreateInput) (now_ms : ℕ) (r r' : Repo)
    → validate_input input ≡ none
    → Repo.create (new_task input now_ms) r ≡ ok r'
    → allowed (status_of j r) (status_of j r') ≡ true
unfolding Repo.create new_task JsMap.has allowed
allowed-create j input now_ms r r' v h = ground (
  arith,
  validated_state input v,
  allowed_self (status_of j r),
  eq_iff input.id j,
  get-set input.id j (new_task input now_ms) r.tasks,
)

module _ (parse : String → Parsed) (stringify : BridgeContext → String) (j : String) where
  status-start_bridge :
      (now_ms : ℕ) (o : Option BridgeContext) (s : Service)
      → status_of j (start_bridge parse stringify now_ms o s).repo ≡ status_of j s.repo
  unfolding start_bridge
  status-start_bridge now_ms none s = refl
  status-start_bridge now_ms (some ctx) s = status-set_internal_stash ctx.task_id j s.repo _ now_ms

  -- The bridge writes the stash of its task, and no state.
  status-bridge :
      (t : WorkflowTask) (d : Details) (now_ms : ℕ) (s : Service)
      → status_of j (bridge_service_query_completion parse stringify t d now_ms s).1.repo
        ≡ status_of j s.repo
  unfolding bridge_service_query_completion
  status-bridge t d now_ms s = elim (Parsed-cases (parse t.payload)) [
    | inl (p, e) ↦ ground (arith, status-start_bridge now_ms (bridge_context t d p) s)
    | inr no_fields ↦ ground arith
  ]

  status-finish_end :
      (task : WorkflowTask) (to : State) (id : String) (d : Details) (stash_ms : ℕ) (w : Repo × ℕ)
      (s : Service)
      → status_of j (finish_end parse stringify task to id d stash_ms w s).1.repo ≡ status_of j w.0
  unfolding finish_end
  status-finish_end task to id d stash_ms (r, event_id) s =
      ground
        (arith, status-bridge (or_default (get_by_id id r) task) d stash_ms (record s { repo = r }))

  -- Whatever an operation of the service does, and whether it returns or throws, the state of the
  -- task at any id `j` stays, or moves along the table of transitions; a task that was not there
  -- starts in one of the initial states; and no task is removed.
  pub run-allowed :
      (op : Op) (s : Service)
      → allowed (status_of j s.repo) (status_of j (run parse stringify op s).1.repo) ≡ true
  unfolding run create approve complete fail cancel get_by_id append_event
  run-allowed (create_op input now_ms) s =
      elim (Result-cases (Repo.create (new_task input now_ms) s.repo)) [
        | inl (r', stored) ↦
            ground
              (arith, allowed_self (status_of j s.repo), allowed-create j input now_ms s.repo r')
        | inr (e, refused) ↦ ground (arith, allowed_self (status_of j s.repo))
      ]
  run-allowed (approve_op id now_ms) s = ground (
    arith,
    allowed_self (status_of j s.repo),
    allowed-transition id j s.repo pending_approval queued now_ms approval_queues,
  )
  run-allowed (complete_op id result_json summary agent_did now_ms stash_ms) s =
      let d = object (text "state" "completed" ∷ []) in
      let w = Finish.complete_with_details id agent_did summary result_json d now_ms s.repo in
      elim (Option-cases (JsMap.get id s.repo.tasks)) [
        | inl gone ↦ ground (arith, allowed_self (status_of j s.repo))
        | inr (t, found) ↦ ground (
          arith,
          allowed_self (status_of j s.repo),
          status-finish_end t completed id (raw result_json) stash_ms w s,
          allowed_complete id j s.repo t agent_did summary result_json d now_ms found,
        )
      ]
  run-allowed (fail_op id error_msg agent_did now_ms stash_ms) s =
      let d = object (text "status" "error" ∷ text "error" error_msg ∷ []) in
      let w = Finish.fail id agent_did error_msg now_ms s.repo in
      elim (Option-cases (JsMap.get id s.repo.tasks)) [
        | inl gone ↦ ground (arith, allowed_self (status_of j s.repo))
        | inr (t, found) ↦ ground (
          arith,
          allowed_self (status_of j s.repo),
          status-finish_end t failed id d stash_ms w s,
          allowed-fail id j s.repo t agent_did error_msg now_ms found,
        )
      ]
  run-allowed (cancel_op id reason now_ms) s = elim (Option-cases (JsMap.get id s.repo.tasks)) [
    | inl gone ↦ ground (arith, allowed_self (status_of j s.repo))
    | inr (t, found) ↦
        ground (
          arith,
          allowed_self (status_of j s.repo),
          allowed-cancel id j s.repo t reason now_ms found,
        )
  ]
