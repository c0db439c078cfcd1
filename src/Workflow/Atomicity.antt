-- ===== src/Workflow/Atomicity.antt =====
-- packages/core/src/workflow/service.ts: what an operation of the service that throws leaves behind.
use dina_mobile.Prelude.{
  ℕ, String, false, ◌<◌, ◌≡◌, ◌≢◌, inl, inr, arith, err, Option-cases, or_default, [], ◌∷◌,
}
use dina_mobile.JsMap
use dina_mobile.Workflow.Domain.{
  State, WorkflowTask, Details, raw, text, object, Parsed, pending_approval, queued, completed,
  failed,
}
use dina_mobile.Workflow.Repo.{Repo, get_by_id, transition}
use dina_mobile.Workflow.Finish
use dina_mobile.Workflow.Service.{
  Service, ServiceError, type_error, Exec, CreateInput, BridgeContext,
  bridge_service_query_completion,
}
use dina_mobile.Workflow.Lifecycle.{finish_end, create, approve, complete, fail, cancel}

-- The calls that change the service's state.
pub data Op : Type 0 where
  create_op : CreateInput → ℕ → Op
  approve_op : String → ℕ → Op
  complete_op : String → String → String → String → ℕ → ℕ → Op
  fail_op : String → String → String → ℕ → ℕ → Op
  cancel_op : String → String → ℕ → Op

-- A write that reports the event id 0 was no write, as ids start at 1.
complete_with_details-zero :
    (id agent_did summary result_json : String) (details : Details) (now_ms : ℕ) (r : Repo)
    → 0 < r.next_event_id
    → (Finish.complete_with_details id agent_did summary result_json details now_ms r).1 ≡ 0
    → (Finish.complete_with_details id agent_did summary result_json details now_ms r).0 ≡ r
unfolding Finish.complete_with_details
complete_with_details-zero id agent_did summary result_json details now_ms r pos h = ground arith

fail-zero :
    (id agent_did error_msg : String) (now_ms : ℕ) (r : Repo)
    → 0 < r.next_event_id
    → (Finish.fail id agent_did error_msg now_ms r).1 ≡ 0
    → (Finish.fail id agent_did error_msg now_ms r).0 ≡ r
unfolding Finish.fail
fail-zero id agent_did error_msg now_ms r pos h = ground arith

cancel-zero :
    (id reason : String) (now_ms : ℕ) (r : Repo)
    → 0 < r.next_event_id
    → (Finish.cancel id reason now_ms r).1 ≡ 0
    → (Finish.cancel id reason now_ms r).0 ≡ r
unfolding Finish.cancel
cancel-zero id reason now_ms r pos h = ground arith

transition-false :
    (id : String) (from to : State) (now_ms : ℕ) (r : Repo)
    → (transition id from to now_ms r).1 ≡ false
    → (transition id from to now_ms r).0 ≡ r
unfolding transition
transition-false id from to now_ms r h = ground arith

module _ (parse : String → Parsed) (stringify : BridgeContext → String) where
  unfoldable pub run : Op → Exec WorkflowTask
  run (create_op input now_ms) = create input now_ms
  run (approve_op id now_ms) = approve id now_ms
  run (complete_op id result_json summary agent_did now_ms stash_ms) =
      complete parse stringify id result_json summary agent_did now_ms stash_ms
  run (fail_op id error_msg agent_did now_ms stash_ms) =
      fail parse stringify id error_msg agent_did now_ms stash_ms
  run (cancel_op id reason now_ms) = cancel id reason now_ms

  bridge_throws_type_error :
      (t : WorkflowTask) (d : Details) (now_ms : ℕ) (s : Service) (e : ServiceError)
      → (bridge_service_query_completion parse stringify t d now_ms s).0 ≡ err e
      → e ≡ type_error
  unfolding bridge_service_query_completion
  bridge_throws_type_error t d now_ms s e h = ground arith

  finish_end_atomic :
      (task : WorkflowTask) (to : State) (id : String) (d : Details) (stash_ms : ℕ) (w : Repo × ℕ)
      (s : Service) (e : ServiceError)
      → (w.1 ≡ 0 → w.0 ≡ s.repo)
      → (finish_end parse stringify task to id d stash_ms w s).0 ≡ err e
      → e ≢ type_error
      → (finish_end parse stringify task to id d stash_ms w s).1 ≡ s
  unfolding finish_end
  finish_end_atomic task to id d stash_ms (r, event_id) s e same h ne =
      let updated = or_default (get_by_id id r) task in
      ground (arith, bridge_throws_type_error updated d stash_ms (record s { repo = r }) e)

  -- With event ids from 1 on, an operation that throws anything but the `TypeError` of a payload
  -- `null` leaves the service's state as it was.
  pub run_atomic :
      (op : Op) (s : Service) (e : ServiceError)
      → 0 < s.repo.next_event_id
      → (run op s).0 ≡ err e
      → e ≢ type_error
      → (run op s).1 ≡ s
  unfolding run create approve complete fail cancel
  run_atomic (create_op input now_ms) s e pos h ne = ground arith
  run_atomic (approve_op id now_ms) s e pos h ne =
      ground (arith, transition-false id pending_approval queued now_ms s.repo)
  run_atomic (complete_op id result_json summary agent_did now_ms stash_ms) s e pos h ne =
      elim (Option-cases (JsMap.get id s.repo.tasks)) [
        | inl gone ↦ ground arith
        | inr (t, found) ↦ ground (
          arith,
          finish_end_atomic t completed id (raw result_json) stash_ms
              (Finish.complete_with_details id agent_did summary result_json
                (object (text "state" "completed" ∷ [])) now_ms s.repo)
              s e
              (complete_with_details-zero id agent_did summary result_json
                (object (text "state" "completed" ∷ [])) now_ms s.repo pos),
        )
      ]
  run_atomic (fail_op id error_msg agent_did now_ms stash_ms) s e pos h ne =
      elim (Option-cases (JsMap.get id s.repo.tasks)) [
        | inl gone ↦ ground arith
        | inr (t, found) ↦ ground (
          arith,
          finish_end_atomic t failed id
              (object (text "status" "error" ∷ text "error" error_msg ∷ [])) stash_ms
              (Finish.fail id agent_did error_msg now_ms s.repo) s e
              (fail-zero id agent_did error_msg now_ms s.repo pos),
        )
      ]
  run_atomic (cancel_op id reason now_ms) s e pos h ne =
      ground (arith, cancel-zero id reason now_ms s.repo)
