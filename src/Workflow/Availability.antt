-- ===== src/Workflow/Availability.antt =====
-- packages/core/src/workflow/repository.ts, `InMemoryWorkflowRepository`: what a claim returns.
use dina_mobile.Prelude.{
  ℕ, ◌+◌, ◌≤◌, ◌<◌, ◌/◌, String, true, none, some, List, ◌≡◌, ◌⊎◌, if◌then◌else◌, refl, inl, inr,
  arith, ok, [], ◌∷◌, leb, head?, sort_by, insert_by, Bool-cases, Option-cases, eq_iff, keep,
  kept-All, All, ◌==◌,
}
use dina_mobile.JsMap
use dina_mobile.JsMap.{JsMap, get-set, All-get}
use dina_mobile.Workflow.Domain.{queued, running, WorkflowTask, same_state_iff}
use dina_mobile.Workflow.Repo.{Repo}
use dina_mobile.Workflow.Lease.{
  claim_delegation_task, claim_winner, candidates, claimable, claimed_by,
}
use dina_mobile.Workflow.Claims.{IsStore, claim_inv, claim_oldest}

-- A queued delegation whose deadline, if it has one, is after the second of `now_ms`.
abbrev pub CanClaim : ℕ → WorkflowTask → Type 0
CanClaim now_ms t =
    (t.kind ≡ "delegation")
    × (t.status ≡ queued)
    × ((t.expires_at ≡ none) ⊎ ((at : ℕ) × (t.expires_at ≡ some at) × (now_ms / 1000 < at)))

claimable-CanClaim :
    (now_ms : ℕ) (t : WorkflowTask) → claimable (now_ms / 1000) t ≡ true → CanClaim now_ms t
unfolding claimable
claimable-CanClaim now_ms t h =
    let same = same_state_iff t.status queued in
    let kind = eq_iff t.kind "delegation" in
    elim (Option-cases t.expires_at) [
      | inl e ↦ (ground (arith, kind), ground (arith, same), inl e)
      | inr (at, e) ↦ (ground (arith, kind), ground (arith, same), inr (at, e, ground arith))
    ]

CanClaim-claimable :
    (now_ms : ℕ) (t : WorkflowTask) → CanClaim now_ms t → claimable (now_ms / 1000) t ≡ true
unfolding claimable
CanClaim-claimable now_ms t (kind, status, inl e) =
    ground (arith, same_state_iff t.status queued, eq_iff t.kind "delegation")
CanClaim-claimable now_ms t (kind, status, inr (at, e, later)) =
    ground (arith, same_state_iff t.status queued, eq_iff t.kind "delegation")

some-head_insert_by :
    (f : WorkflowTask → ℕ) (x : WorkflowTask) (ys : List WorkflowTask)
    → (w : WorkflowTask) × (head? (insert_by f x ys) ≡ some w)
unfolding insert_by
some-head_insert_by f x [] = (x, refl)
some-head_insert_by f x (y ∷ ys) = elim (Bool-cases (leb (f x) (f y))) [
  | inl le ↦ (x, rw le refl)
  | inr gt ↦ (y, rw gt refl)
]

head-sort_by-none :
    (f : WorkflowTask → ℕ) (xs : List WorkflowTask) → head? (sort_by f xs) ≡ none → xs ≡ []
unfolding sort_by
head-sort_by-none f [] h = refl
head-sort_by-none f (x ∷ xs) h =
    let (w, first) = some-head_insert_by f x (sort_by f xs) in absurd (ground arith)

-- What a claim returns if it finds no task, and if it finds `w`.
abbrev pub FoundNothing : ℕ → Repo → Type 0
FoundNothing now_ms r =
    (id : String) (t : WorkflowTask) → JsMap.get id r.tasks ≡ some t → ¬ CanClaim now_ms t

abbrev pub HasTaken : String → ℕ → ℕ → Repo → WorkflowTask → Repo → WorkflowTask → Type 0
HasTaken agent_did now_ms lease_ms r w r' t =
    (JsMap.get w.id r.tasks ≡ some w)
    × CanClaim now_ms w
    × ((id : String) (x : WorkflowTask)
        → JsMap.get id r.tasks ≡ some x
        → CanClaim now_ms x
        → w.created_at ≤ x.created_at)
    × (t ≡ record w {
      status = running;
      agent_did = some agent_did;
      lease_expires_at = some (now_ms + lease_ms);
      updated_at = now_ms;
    })
    × ((id : String)
        → JsMap.get id r'.tasks ≡ (if w.id == id then some t else JsMap.get id r.tasks))

nothing_lem : (now_ms : ℕ) (r : Repo) → candidates now_ms r ≡ [] → FoundNothing now_ms r
unfolding candidates
nothing_lem now_ms r empty id t found can =
    let p = claimable (now_ms / 1000) in
    let none_kept : All (λ x. ⊥) (keep p (JsMap.values r.tasks)) = rw empty tt in
    All-get (λ x. p x ≡ true → ⊥) id t r.tasks
      (kept-All (λ x. ⊥) p (JsMap.values r.tasks) none_kept) found (CanClaim-claimable now_ms t can)

taken_lem :
    (agent_did : String) (now_ms lease_ms : ℕ) (r r' : Repo) (t : WorkflowTask)
    → IsStore r
    → claim_delegation_task agent_did now_ms lease_ms r ≡ ok (r', some t)
    → (w : WorkflowTask) × HasTaken agent_did now_ms lease_ms r w r' t
unfolding candidates claimed_by claim_winner
taken_lem agent_did now_ms lease_ms r r' t st h =
    let p = claimable (now_ms / 1000) in
    let (w, value, found, can, oldest, stored) =
      claim_oldest agent_did now_ms lease_ms r r' t st h in
    let (v, first, after, value') = claim_inv agent_did now_ms lease_ms r r' t h in
    (
      w,
      (
        ground arith,
        claimable-CanClaim now_ms w can,
        (λ id x at x_can.
            let le =
              All-get (λ y. p y ≡ true → t.created_at ≤ y.created_at) id x r.tasks
                (kept-All (λ y. t.created_at ≤ y.created_at) p (JsMap.values r.tasks) oldest) at
                (CanClaim-claimable now_ms x x_can) in
            ground arith),
        value,
        λ id. ground (arith, get-set v.id id (claimed_by agent_did now_ms lease_ms v) r.tasks),
      ),
    )

-- A claim with a lease that is not empty, in a store with each task once under its id: either no
-- stored task is a queued delegation whose deadline has not come, and the claim returns nothing
-- and changes nothing; or it returns the oldest of those, now running for the agent
-- with its lease, and stores it, with no other task changed.
pub claim_returns :
    (agent_did : String) (now_ms lease_ms : ℕ) (r : Repo)
    → IsStore r
    → 0 < lease_ms
    → (FoundNothing now_ms r × (claim_delegation_task agent_did now_ms lease_ms r ≡ ok (r, none)))
      ⊎ ((w : WorkflowTask) × (r' : Repo) × (t : WorkflowTask) × (claim_delegation_task agent_did
              now_ms lease_ms r
            ≡ ok (r', some t))
          × HasTaken agent_did now_ms lease_ms r w r' t)
unfolding claim_delegation_task claim_winner
claim_returns agent_did now_ms lease_ms r st positive =
    let by_age : WorkflowTask → ℕ = λ t. t.created_at in
    let sorted = sort_by by_age (candidates now_ms r) in
    elim (Option-cases (head? sorted)) [
      | inl nothing ↦ inl (
        nothing_lem now_ms r (head-sort_by-none by_age (candidates now_ms r) nothing),
        ground (arith, nothing),
      )
      | inr (w, first) ↦
          let result = claim_winner agent_did now_ms lease_ms (some w) r in
          let t = claimed_by agent_did now_ms lease_ms w in
          let done : claim_delegation_task agent_did now_ms lease_ms r ≡ ok (result.0, some t) =
            ground (arith, first) in
          let (v, taken) = taken_lem agent_did now_ms lease_ms r result.0 t st done in
          inr (v, result.0, t, done, taken)
    ]
