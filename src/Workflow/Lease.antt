-- ===== src/Workflow/Lease.antt =====
-- packages/core/src/workflow/repository.ts, `InMemoryWorkflowRepository`: claims and leases.
use dina_mobile.Prelude.{
  ℕ, ◌+◌, ◌*◌, ◌/◌, String, Bool, true, false, not, Option, none, some, List, [], ◌∷◌, ◌==◌, ◌&&◌,
  ◌||◌, max, head?, keep, map, sort_by, leb, ltb, nat_eq, if◌then◌else◌, or_default, Result, ok,
  err,
}
use dina_mobile.JsMap
use dina_mobile.JsMap.{JsMap}
use dina_mobile.Workflow.Domain.{
  queued, pending_approval, running, WorkflowTask, text, num, object, same_state,
}
use dina_mobile.Workflow.Repo.{Repo, RepoError, bad_lease, holds, store_task, event, push_event}

unfoldable pub claim_approval_for_execution : String → ℕ → ℕ → Repo → Repo × Bool
unfolding store_task same_state
claim_approval_for_execution id extend_sec now_sec r = elim (JsMap.get id r.tasks) [
  | none ↦ (r, false)
  | some t ↦
      if not (t.kind == "approval")
        || (not (same_state t.status queued) && not (same_state t.status pending_approval))
      then (r, false)
      else (
        store_task id
            (record t {
              status = running;
              expires_at = some (max (or_default t.expires_at now_sec) now_sec + extend_sec);
              updated_at = now_sec * 1000;
            })
            r,
        true,
      )
]

-- `expires_at` is there and not after `now_sec`.
abbrev pub is_past : Option ℕ → ℕ → Bool
is_past none now_sec = false
is_past (some t) now_sec = leb t now_sec

-- The tasks that an agent may claim.
unfoldable pub claimable : ℕ → WorkflowTask → Bool
unfolding same_state
claimable now_sec t =
    t.kind == "delegation" && same_state t.status queued && not (is_past t.expires_at now_sec)

unfoldable pub claimed_by : String → ℕ → ℕ → WorkflowTask → WorkflowTask
claimed_by agent_did now_ms lease_ms t = record t {
  status = running;
  agent_did = some agent_did;
  lease_expires_at = some (now_ms + lease_ms);
  updated_at = now_ms;
}

unfoldable pub claim_winner :
    String → ℕ → ℕ → Option WorkflowTask → Repo → Repo × Option WorkflowTask
unfolding store_task push_event claimed_by
claim_winner agent_did now_ms lease_ms none r = (r, none)
claim_winner agent_did now_ms lease_ms (some t) r = (
  push_event
      (event t.id now_ms "claimed" false
        (object (text "agent_did" agent_did ∷ num "lease_expires_at" (now_ms + lease_ms) ∷ [])))
      (store_task t.id (claimed_by agent_did now_ms lease_ms t) r),
  some (claimed_by agent_did now_ms lease_ms t),
)

unfoldable pub candidates : ℕ → Repo → List WorkflowTask
candidates now_ms r = keep (claimable (now_ms / 1000)) (JsMap.values r.tasks)

unfoldable pub claim_delegation_task :
    String → ℕ → ℕ → Repo → Result RepoError (Repo × Option WorkflowTask)
claim_delegation_task agent_did now_ms lease_ms r =
    if nat_eq lease_ms 0
    then err bad_lease
    else ok (
        claim_winner agent_did now_ms lease_ms
          (head? (sort_by (λ t. t.created_at) (candidates now_ms r))) r)

-- The guard of `heartbeatTask` and `updateTaskProgress`.
unfoldable pub is_held_by : String → WorkflowTask → Bool
unfolding same_state
is_held_by agent_did t = same_state t.status running && holds t.agent_did agent_did

unfoldable pub heartbeat_task : String → String → ℕ → ℕ → Repo → Result RepoError (Repo × Bool)
unfolding store_task is_held_by
heartbeat_task id agent_did now_ms lease_ms r =
    if nat_eq lease_ms 0
    then err bad_lease
    else ok (elim (JsMap.get id r.tasks) [
      | none ↦ (r, false)
      | some t ↦
          if is_held_by agent_did t
          then (
            store_task id
                (record t { lease_expires_at = some (now_ms + lease_ms); updated_at = now_ms }) r,
            true,
          )
          else (r, false)
    ])

unfoldable pub update_task_progress : String → String → String → ℕ → Repo → Repo × Bool
unfolding store_task is_held_by
update_task_progress id agent_did progress_note now_ms r = elim (JsMap.get id r.tasks) [
  | none ↦ (r, false)
  | some t ↦
      if is_held_by agent_did t
      then (
        store_task id (record t { progress_note = some progress_note; updated_at = now_ms }) r,
        true,
      )
      else (r, false)
]

-- `lease_expires_at` is there and before `now_ms`.
abbrev pub lease_lapsed : Option ℕ → ℕ → Bool
lease_lapsed none now_ms = false
lease_lapsed (some t) now_ms = ltb t now_ms

unfoldable pub has_expired_lease : ℕ → WorkflowTask → Bool
unfolding same_state
has_expired_lease now_ms t = same_state t.status running && lease_lapsed t.lease_expires_at now_ms

unfoldable pub reverted : ℕ → WorkflowTask → WorkflowTask
reverted now_ms t = record t {
  status = queued;
  agent_did = none;
  lease_expires_at = none;
  updated_at = now_ms;
}

-- The loop's body at the task `t` of the map.
unfoldable pub expire_lease : ℕ → WorkflowTask → WorkflowTask
unfolding has_expired_lease reverted
expire_lease now_ms t = if has_expired_lease now_ms t then reverted now_ms t else t

-- The events of the loop, one for each task that it reverts.
unfoldable pub push_lease_events : ℕ → List WorkflowTask → Repo → Repo
unfolding push_event
push_lease_events now_ms [] r = r
push_lease_events now_ms (t ∷ ts) r = push_lease_events now_ms ts (
    push_event
      (event t.id now_ms "lease_expired" false
        (object (text "previous_agent_did" (or_default t.agent_did "") ∷ [])))
      r)

-- The loop changes each task alone and appends to `events`, so it is a change of all tasks and then
-- the events in the order of the map.
unfoldable pub expire_leased_tasks : ℕ → Repo → Repo × List WorkflowTask
unfolding expire_lease push_lease_events
expire_leased_tasks now_ms r =
    let due = keep (has_expired_lease now_ms) (JsMap.values r.tasks) in
    (
      push_lease_events now_ms due
          (record r { tasks = JsMap.update_all (expire_lease now_ms) r.tasks }),
      map (reverted now_ms) due,
    )
