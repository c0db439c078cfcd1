-- ===== src/Workflow/Claims.antt =====
-- packages/core/src/workflow/repository.ts, `InMemoryWorkflowRepository`: what a claim of a delegation
-- picks and leaves behind, and the leases that keep it.
use dina_mobile.Prelude.{
  ℕ, ◌+◌, ◌≤◌, ◌/◌, String, true, some, List, ◌≡◌, ◌≢◌, refl, inl, inr, arith, ◌∙◌, Option-cases,
  if◌then◌else◌, ok, [], ◌∷◌, ◌==◌, eq_iff, leb, keep, All, All-map, head?, sort_by, All-head,
  All-keep, keep-All, All-sort_by, head-sort_by_min,
}
use dina_mobile.JsMap
use dina_mobile.JsMap.{JsMap, IsKeyed, get-set, get-set_self, get-update_all, IsKeyed-set}
use dina_mobile.Workflow.Domain.{running, queued, WorkflowTask, same_state_iff}
use dina_mobile.Workflow.Repo.{Repo, get_by_id}
use dina_mobile.Workflow.Lease.{
  claim_delegation_task, claim_winner, candidates, claimable, claimed_by, heartbeat_task,
  expire_lease, expire_leased_tasks, push_lease_events, has_expired_lease, reverted, is_held_by,
}

-- A claim that returns a task has taken the first of the sorted candidates.
pub claim_inv :
    (agent_did : String) (now_ms lease_ms : ℕ) (r r' : Repo) (t : WorkflowTask)
    → claim_delegation_task agent_did now_ms lease_ms r ≡ ok (r', some t)
    → (w : WorkflowTask) × (head?
          (sort_by (λ (x : WorkflowTask). x.created_at) (candidates now_ms r))
        ≡ some w)
      × (r' ≡ (claim_winner agent_did now_ms lease_ms (some w) r).0)
      × (t ≡ claimed_by agent_did now_ms lease_ms w)
unfolding claim_delegation_task claim_winner
claim_inv agent_did now_ms lease_ms r r' t h =
    elim (Option-cases
      (head? (sort_by (λ (x : WorkflowTask). x.created_at) (candidates now_ms r)))) [
        | inl nobody ↦ absurd (ground arith)
        | inr (w, first) ↦ (w, first, ground arith, ground arith)
      ]

-- Every entry stands under the id of its task.
abbrev pub IsIndexed : JsMap WorkflowTask → Type 0
IsIndexed [] = Unit
IsIndexed ((k, t) ∷ m) = (k ≡ t.id) × IsIndexed m

-- The map of tasks is one: no key twice, and each task under its id.
abbrev pub IsStore : Repo → Type 0
IsStore r = IsKeyed r.tasks × IsIndexed r.tasks

-- In such a map every value is found under its id.
values-found :
    (m : JsMap WorkflowTask)
    → IsKeyed m
    → IsIndexed m
    → All (λ t. JsMap.get t.id m ≡ some t) (JsMap.values m)
unfolding JsMap.values JsMap.get JsMap.has
values-found [] k i = tt
values-found ((j, t) ∷ m) k i = (
  ground (arith, eq_iff j t.id, i.0),
  All-map (λ x. JsMap.get x.id m ≡ some x)
      (λ x. (if j == x.id then some t else JsMap.get x.id m) ≡ some x)
      (λ x found. ground (arith, eq_iff j x.id)) (JsMap.values m) (values-found m k.1 i.1),
)

-- In a store with each task once under its id, a claim that returns a task returns one that was stored
-- and could be claimed, the oldest of those, now running for the agent under its lease, and
-- stores it.
pub claim_oldest :
    (agent_did : String) (now_ms lease_ms : ℕ) (r r' : Repo) (t : WorkflowTask)
    → IsStore r
    → claim_delegation_task agent_did now_ms lease_ms r ≡ ok (r', some t)
    → (w : WorkflowTask) × (t ≡ claimed_by agent_did now_ms lease_ms w)
      × (JsMap.get t.id r.tasks ≡ some w)
      × (claimable (now_ms / 1000) w ≡ true)
      × All (λ x. t.created_at ≤ x.created_at) (candidates now_ms r)
      × (JsMap.get t.id r'.tasks ≡ some t)
unfolding claim_winner claimed_by candidates
claim_oldest agent_did now_ms lease_ms r r' t st h =
    let (w, first, after, value) = claim_inv agent_did now_ms lease_ms r r' t h in
    let p = claimable (now_ms / 1000) in
    let vs = JsMap.values r.tasks in
    let at = λ (x : WorkflowTask). x.created_at in
    let head_has = λ (P : WorkflowTask → Type 0) (all : All P (keep p vs)).
      All-head P w (sort_by at (keep p vs)) (All-sort_by P at (keep p vs) all) first in
    let found =
      head_has (λ x. JsMap.get x.id r.tasks ≡ some x)
        (keep-All (λ x. JsMap.get x.id r.tasks ≡ some x) p vs (values-found r.tasks st.0 st.1)) in
    (
      w,
      value,
      rw value found,
      head_has (λ x. p x ≡ true) (All-keep p vs),
      rw value (head-sort_by_min at w (keep p vs) first),
      rw (value, after) (get-set_self w.id (claimed_by agent_did now_ms lease_ms w) r.tasks),
    )

IsIndexed-set :
    (t : WorkflowTask) (m : JsMap WorkflowTask) → IsIndexed m → IsIndexed (JsMap.set t.id t m)
unfolding JsMap.set
IsIndexed-set t [] h = (refl, tt)
IsIndexed-set t ((j, w) ∷ m) h = ground (arith, eq_iff j t.id, IsIndexed-set t m h.1)

-- A claim keeps the map of tasks a store.
claim-IsStore :
    (agent_did : String) (now_ms lease_ms : ℕ) (r r' : Repo) (t : WorkflowTask)
    → IsStore r
    → claim_delegation_task agent_did now_ms lease_ms r ≡ ok (r', some t)
    → IsStore r'
unfolding claim_winner
claim-IsStore agent_did now_ms lease_ms r r' t st h =
    let (w, first, after, value) = claim_inv agent_did now_ms lease_ms r r' t h in
    let u = claimed_by agent_did now_ms lease_ms w in
    rw after (IsKeyed-set w.id u r.tasks st.0, unfold claimed_by in IsIndexed-set u r.tasks st.1)

-- In a store with each task once under its id, a task that one agent has claimed is not given to
-- another: the next claim, by any agent at any time, returns a task with another id.
pub claim_exclusive :
    (agent_did agent_did' : String) (now_ms lease_ms now_ms' lease_ms' : ℕ) (r r' r'' : Repo)
    (t u : WorkflowTask)
    → IsStore r
    → claim_delegation_task agent_did now_ms lease_ms r ≡ ok (r', some t)
    → claim_delegation_task agent_did' now_ms' lease_ms' r' ≡ ok (r'', some u)
    → u.id ≢ t.id
unfolding claimable claimed_by
claim_exclusive agent_did agent_did' now_ms lease_ms now_ms' lease_ms' r r' r'' t u st h h' same =
    let (w, value, _, _, _, stored) = claim_oldest agent_did now_ms lease_ms r r' t st h in
    let st' = claim-IsStore agent_did now_ms lease_ms r r' t st h in
    let (w', _, found', can', _, _) = claim_oldest agent_did' now_ms' lease_ms' r' r'' u st' h' in
    ground (arith, same_state_iff w'.status queued)

tasks-push_lease_events :
    (now_ms : ℕ) (ts : List WorkflowTask) (r : Repo)
    → (push_lease_events now_ms ts r).tasks ≡ r.tasks
unfolding push_lease_events
tasks-push_lease_events now_ms [] r = refl
tasks-push_lease_events now_ms (t ∷ ts) r = tasks-push_lease_events now_ms ts _

-- The sweep of leases, at each id: a running task whose lease ended before `now_ms` is queued again
-- with no agent and no lease, and every other task stays as it was.
pub get-expire_leased_tasks :
    (now_ms : ℕ) (j : String) (r : Repo)
    → get_by_id j (expire_leased_tasks now_ms r).0
      ≡ JsMap.mapped
          (λ t. if has_expired_lease now_ms t then reverted now_ms t else t)
          (get_by_id j r)
unfolding expire_leased_tasks get_by_id expire_lease
get-expire_leased_tasks now_ms j r =
    rw tasks-push_lease_events (get-update_all (expire_lease now_ms) j r.tasks)

lease_test :
    (later_ms until_ms : ℕ) (u : WorkflowTask)
    → u.lease_expires_at ≡ some until_ms
    → u.status ≡ running
    → some (if has_expired_lease later_ms u then reverted later_ms u else u)
      ≡ some (if leb later_ms until_ms then u else reverted later_ms u)
unfolding has_expired_lease
lease_test later_ms until_ms u lease runs = ground (arith, same_state_iff u.status running)

is_held_by_inv :
    (agent_did : String) (t : WorkflowTask)
    → is_held_by agent_did t ≡ true
    → (t.status ≡ running) × (t.agent_did ≡ some agent_did)
unfolding is_held_by
is_held_by_inv agent_did t h = elim (Option-cases t.agent_did) [
  | inl none_held ↦ absurd (ground arith)
  | inr (a, e) ↦ ground (arith, same_state_iff t.status running, eq_iff a agent_did)
]

-- A heartbeat that is accepted at `now_ms` keeps the task running for its agent through every sweep
-- up to the end of the new lease, and at the next millisecond the task goes back to the queue.
pub heartbeat_holds_lease :
    (id agent_did : String) (now_ms lease_ms later_ms : ℕ) (r r' : Repo)
    → heartbeat_task id agent_did now_ms lease_ms r ≡ ok (r', true)
    → (t : WorkflowTask) × (get_by_id id r' ≡ some t)
      × (t.status ≡ running)
      × (t.agent_did ≡ some agent_did)
      × (get_by_id id (expire_leased_tasks later_ms r').0
          ≡ some (if leb later_ms (now_ms + lease_ms) then t else reverted later_ms t))
unfolding heartbeat_task get_by_id
heartbeat_holds_lease id agent_did now_ms lease_ms later_ms r r' h =
    elim (Option-cases (JsMap.get id r.tasks)) [
      | inl gone ↦ absurd (ground arith)
      | inr (t, found) ↦
          let u : WorkflowTask = record t {
            lease_expires_at = some (now_ms + lease_ms);
            updated_at = now_ms;
          } in
          let stored : JsMap.get id r'.tasks ≡ some u = ground (arith, get-set_self id u r.tasks) in
          let held : (t.status ≡ running) × (t.agent_did ≡ some agent_did) =
            ground (arith, is_held_by_inv agent_did t) in
          (
            u,
            stored,
            held.0,
            held.1,
            get-expire_leased_tasks later_ms id r'
                ∙ rw stored (lease_test later_ms (now_ms + lease_ms) u refl held.0),
          )
    ]
