-- ===== src/Workflow/Moves.antt =====
-- packages/core/src/workflow/repository.ts: how each write of the store changes the states of tasks.
use dina_mobile.Prelude.{
  ℕ, String, Bool, true, false, Option, none, some, ◌≡◌, refl, inl, inr, arith, ◌||◌, ◌==◌, eq_iff,
  Option-cases, if◌then◌else◌,
}
use dina_mobile.JsMap
use dina_mobile.JsMap.{get-set}
use dina_mobile.Workflow.Domain.{
  State, WorkflowTask, Details, completed, failed, cancelled, same_state, same_state_iff,
  is_valid_transition,
}
use dina_mobile.Workflow.Repo.{Repo, store_task, transition, set_internal_stash}
use dina_mobile.Workflow.Finish
use dina_mobile.Workflow.Service.{is_valid_initial_state}

abbrev pub status_in : Option WorkflowTask → Option State
status_in none = none
status_in (some t) = some t.status

-- The state of the task stored at `id`.
abbrev pub status_of : String → Repo → Option State
status_of id r = status_in (JsMap.get id r.tasks)

-- The changes of a stored state that the service may make: a new task in an initial state, and the
-- moves of the table of transitions. No task is ever removed.
unfoldable pub allowed : Option State → Option State → Bool
allowed none none = true
allowed none (some to) = is_valid_initial_state to
allowed (some from) none = false
allowed (some from) (some to) = same_state from to || is_valid_transition from to

pub allowed_self : (o : Option State) → allowed o o ≡ true
unfolding allowed same_state
allowed_self none = refl
allowed_self (some from) = ground arith

pub allowed-valid :
    (from to : State) → is_valid_transition from to ≡ true → allowed (some from) (some to) ≡ true
unfolding allowed
allowed-valid from to v = ground arith

module _ (id j : String) (r : Repo) where
  pub status-store_task :
      (t : WorkflowTask)
      → status_of j (store_task id t r) ≡ (if id == j then some t.status else status_of j r)
  unfolding store_task
  status-store_task t = rw (get-set id j t r.tasks) (ground arith)

  -- A write at `id` that makes an allowed change makes an allowed change at every id.
  pub allowed-store_task :
      (t u : WorkflowTask)
      → JsMap.get id r.tasks ≡ some t
      → allowed (some t.status) (some u.status) ≡ true
      → allowed (status_of j r) (status_of j (store_task id u r)) ≡ true
  allowed-store_task t u found h =
      ground (arith, status-store_task u, eq_iff id j, allowed_self (status_of j r))

  pub status-set_internal_stash :
      (stash : Option String) (now_ms : ℕ)
      → status_of j (set_internal_stash id stash now_ms r).0 ≡ status_of j r
  unfolding set_internal_stash
  status-set_internal_stash stash now_ms = elim (Option-cases (JsMap.get id r.tasks)) [
    | inl gone ↦ rw (gone, set_internal_stash)
    | inr (t, found) ↦ ground (
      arith,
      eq_iff id j,
      get-set id j (record t { internal_stash = stash; updated_at = now_ms }) r.tasks,
    )
  ]

  pub allowed-transition :
      (from to : State) (now_ms : ℕ)
      → is_valid_transition from to ≡ true
      → allowed (status_of j r) (status_of j (transition id from to now_ms r).0) ≡ true
  unfolding transition
  allowed-transition from to now_ms v = elim (Option-cases (JsMap.get id r.tasks)) [
    | inl gone ↦ rw (gone, transition) (allowed_self (status_of j r))
    | inr (t, found) ↦ ground (
      arith,
      allowed_self (status_of j r),
      same_state_iff t.status from,
      allowed-valid from to v,
      allowed-store_task t (record t { status = to; updated_at = now_ms }) found,
    )
  ]

  pub allowed_complete :
      (t : WorkflowTask) (agent_did summary result_json : String) (d : Details) (now_ms : ℕ)
      → JsMap.get id r.tasks ≡ some t
      → is_valid_transition t.status completed ≡ true
      → allowed
          (status_of j r)
          (status_of j (Finish.complete_with_details id agent_did summary result_json d now_ms r).0)
        ≡ true
  unfolding Finish.complete_with_details
  allowed_complete t agent_did summary result_json d now_ms found v = ground (
    arith,
    allowed_self (status_of j r),
    allowed-store_task t
        (record t {
          status = completed;
          result = some result_json;
          result_summary = summary;
          agent_did = some agent_did;
          updated_at = now_ms;
        })
        found (allowed-valid t.status completed v),
  )

  pub allowed-fail :
      (t : WorkflowTask) (agent_did error_msg : String) (now_ms : ℕ)
      → JsMap.get id r.tasks ≡ some t
      → is_valid_transition t.status failed ≡ true
      → allowed (status_of j r) (status_of j (Finish.fail id agent_did error_msg now_ms r).0) ≡ true
  unfolding Finish.fail
  allowed-fail t agent_did error_msg now_ms found v = ground (
    arith,
    allowed_self (status_of j r),
    allowed-store_task t
        (record t {
          status = failed;
          error = some error_msg;
          agent_did = some agent_did;
          updated_at = now_ms;
        })
        found (allowed-valid t.status failed v),
  )

  pub allowed-cancel :
      (t : WorkflowTask) (reason : String) (now_ms : ℕ)
      → JsMap.get id r.tasks ≡ some t
      → is_valid_transition t.status cancelled ≡ true
      → allowed (status_of j r) (status_of j (Finish.cancel id reason now_ms r).0) ≡ true
  unfolding Finish.cancel
  allowed-cancel t reason now_ms found v = ground (
    arith,
    allowed_self (status_of j r),
    allowed-store_task t (record t { status = cancelled; updated_at = now_ms }) found
        (allowed-valid t.status cancelled v),
  )
