-- ===== src/Task/Attempts.antt =====
-- packages/core/src/task/queue.ts: how often a job has failed.
use dina_mobile.Prelude.{
  subst, sym, ap, ◌∙◌, All-map, ℕ, ◌+◌, ◌≤◌, ◌<◌, String, none, some, List, [], ◌∷◌, ◌≡◌, ◌⊎◌, refl,
  inl, inr, arith, ◌==◌, eq_iff, All, if◌then◌else◌, or_default, Option-cases,
}
use dina_mobile.JsMap
use dina_mobile.JsMap.{
  JsMap, IsKeyed, get-set, get-update_all, All-get, IsKeyed-set, IsKeyed-update_all,
}
use dina_mobile.Task.Queue.{
  pending, running, completed, failed, dead_letter, TaskRecord, Tasks, TaskInput, queued_task,
  enqueue_task, oldest_pending, started, dequeue_task, complete_task, failed_task, fail_task,
  recover_stale_tasks, dead_letter_exhausted,
}
use dina_mobile.Task.Jobs.{
  QueueOp, op_enqueue, op_dequeue, op_complete, op_fail, op_recover, op_bury, apply, apply_all,
  oldest_pending_holds, IsSound, apply_all-AreSound,
}

-- How many calls have failed the id, since it was last enqueued.
abbrev pub failures_after : String → QueueOp → ℕ → ℕ
failures_after j (op_enqueue task random_id now) n =
    if or_default task.id random_id == j then 0 else n
failures_after j (op_fail id reason) n = if id == j then n + 1 else n
failures_after j (op_dequeue now) n = n
failures_after j (op_complete id now) n = n
failures_after j (op_recover timeout_seconds now) n = n
failures_after j op_bury n = n

unfoldable pub failures : String → List QueueOp → ℕ → ℕ
failures j [] n = n
failures j (op ∷ ops) n = failures j ops (failures_after j op n)

-- Each value of a map with each key once is found under some key.
values-found :
    (m : Tasks) → IsKeyed m → All (λ t. (k : String) × (JsMap.get k m ≡ some t)) (JsMap.values m)
unfolding JsMap.values JsMap.get JsMap.has
values-found [] k = tt
values-found ((j, t) ∷ m) k = (
  (j, ground (arith, eq_iff j j)),
  All-map (λ x. (i : String) × (JsMap.get i m ≡ some x))
      (λ x. (i : String) × ((if j == i then some t else JsMap.get i m) ≡ some x))
      (λ x (i, found). (i, ground (arith, eq_iff j i))) (JsMap.values m) (values-found m k.1),
)

-- Each task stands under its id, and the one at `j` has `n` attempts.
abbrev Counts : String → ℕ → Tasks → Type 0
Counts j n ts =
    (k : String) (t : TaskRecord) → JsMap.get k ts ≡ some t → (t.id ≡ k) × (k ≡ j → t.attempts ≡ n)

enqueue-Counts :
    (j : String) (n : ℕ) (task : TaskInput) (random_id : String) (now : ℕ) (ts : Tasks)
    → Counts j n ts
    → Counts j
        (failures_after j (op_enqueue task random_id now) n)
        (enqueue_task task random_id now ts).1
unfolding enqueue_task
enqueue-Counts j n task random_id now ts h k t e =
    let id = or_default task.id random_id in
    let stored = get-set id k (queued_task task id now) ts in
    (
      ground (arith, stored, h k t, eq_iff id k),
      ground (arith, stored, h k t, eq_iff id k, eq_iff id j),
    )

-- The oldest pending task stands under its id.
oldest_found :
    (j : String) (n : ℕ) (ts : Tasks) (w : TaskRecord)
    → IsKeyed ts
    → Counts j n ts
    → oldest_pending (JsMap.values ts) none ≡ some w
    → JsMap.get w.id ts ≡ some w
oldest_found j n ts w keyed h first =
    let P : TaskRecord → Type 0 = λ x. JsMap.get x.id ts ≡ some x in
    oldest_pending_holds P (JsMap.values ts) none w
      (All-map (λ x. (k : String) × (JsMap.get k ts ≡ some x)) (λ x. x.status ≡ pending → P x)
        (λ x (k, found) p. subst (λ i. JsMap.get i ts ≡ some x) (sym (h k x found).0) found)
        (JsMap.values ts) (values-found ts keyed))
      (λ b e. absurd cc) first

-- A write under the id of a task that keeps its id and its attempts.
set-Counts :
    (j : String) (n : ℕ) (ts : Tasks) (id : String) (w u : TaskRecord)
    → JsMap.get id ts ≡ some w
    → u.id ≡ w.id
    → u.attempts ≡ w.attempts
    → Counts j n ts
    → Counts j n (JsMap.set id u ts)
set-Counts j n ts id w u found same_id same_attempts h k t e =
    let stored = get-set id k u ts in
    let old = h id w found in
    (
      ground (arith, stored, h k t, old, eq_iff id k),
      ground (arith, stored, h k t, old, eq_iff id k),
    )

dequeue-Counts :
    (j : String) (n now : ℕ) (ts : Tasks)
    → IsKeyed ts
    → Counts j n ts
    → IsKeyed (dequeue_task now ts).1 × Counts j n (dequeue_task now ts).1
unfolding dequeue_task
dequeue-Counts j n now ts keyed h = elim (Option-cases (oldest_pending (JsMap.values ts) none)) [
  | inl nothing ↦ rw (nothing, dequeue_task) (keyed, h)
  | inr (w, first) ↦
      let u = started now w in
      rw (first, dequeue_task)
        (
          IsKeyed-set w.id u ts keyed,
          set-Counts j n ts w.id w u (oldest_found j n ts w keyed h first) refl refl h,
        )
]

complete-Counts :
    (j : String) (n : ℕ) (id : String) (now : ℕ) (ts : Tasks)
    → IsKeyed ts
    → Counts j n ts
    → IsKeyed (complete_task id now ts).1 × Counts j n (complete_task id now ts).1
unfolding complete_task
complete-Counts j n id now ts keyed h = elim (Option-cases (JsMap.get id ts)) [
  | inl gone ↦ rw (gone, complete_task) (keyed, h)
  | inr (w, found) ↦
      let u : TaskRecord = record w { status = completed; completed_at = some now } in
      rw (found, complete_task)
        (IsKeyed-set id u ts keyed, set-Counts j n ts id w u found refl refl h)
]

fail-Counts :
    (j : String) (n : ℕ) (id reason : String) (ts : Tasks)
    → IsKeyed ts
    → Counts j n ts
    → IsKeyed (fail_task id reason ts).1
      × Counts j (failures_after j (op_fail id reason) n) (fail_task id reason ts).1
unfolding fail_task
fail-Counts j n id reason ts keyed h = elim (Option-cases (JsMap.get id ts)) [
  | inl gone ↦
      rw (gone, fail_task) (keyed, λ k t e. ((h k t e).0, ground (arith, h k t e, eq_iff id j)))
  | inr (w, found) ↦
      let u = failed_task reason w in
      let old = h id w found in
      rw (found, fail_task)
        (
          IsKeyed-set id u ts keyed,
          λ k t e.
              let stored = get-set id k u ts in
              (
                ground (arith, stored, h k t, old, eq_iff id k),
                ground (arith, stored, h k t, old, eq_iff id k, eq_iff id j),
              ),
        )
]

-- A change of every task that keeps its id and its attempts.
update_all-Counts :
    (j : String) (n : ℕ) (f : TaskRecord → TaskRecord) (ts : Tasks)
    → ((t : TaskRecord) → ((f t).id ≡ t.id) × ((f t).attempts ≡ t.attempts))
    → Counts j n ts
    → Counts j n (JsMap.update_all f ts)
update_all-Counts j n f ts keeps h k t e = elim (Option-cases (JsMap.get k ts)) [
  | inl gone ↦ absurd (ground (arith, get-update_all f k ts))
  | inr (w, found) ↦
      let is : some (f w) ≡ some t =
        ap (JsMap.mapped f) (sym found) ∙ sym (get-update_all f k ts) ∙ e in
      let kept = keeps w in let old = h k w found in (ground arith, ground arith)
]

apply-Counts :
    (j : String) (n : ℕ) (op : QueueOp) (ts : Tasks)
    → IsKeyed ts
    → Counts j n ts
    → IsKeyed (apply op ts) × Counts j (failures_after j op n) (apply op ts)
unfolding apply
apply-Counts j n (op_enqueue task random_id now) ts keyed h =
    (unfold enqueue_task in IsKeyed-set _ _ ts keyed, enqueue-Counts j n task random_id now ts h)
apply-Counts j n (op_dequeue now) ts keyed h = dequeue-Counts j n now ts keyed h
apply-Counts j n (op_complete id now) ts keyed h = complete-Counts j n id now ts keyed h
apply-Counts j n (op_fail id reason) ts keyed h = fail-Counts j n id reason ts keyed h
apply-Counts j n (op_recover timeout_seconds now) ts keyed h =
    unfold recover_stale_tasks in
    (
      IsKeyed-update_all _ ts keyed,
      update_all-Counts j n _ ts (λ t. (ground arith, ground arith)) h,
    )
apply-Counts j n op_bury ts keyed h =
    unfold dead_letter_exhausted in
    (
      IsKeyed-update_all _ ts keyed,
      update_all-Counts j n _ ts (λ t. (ground arith, ground arith)) h,
    )

apply_all-Counts :
    (j : String) (n : ℕ) (ops : List QueueOp) (ts : Tasks)
    → IsKeyed ts
    → Counts j n ts
    → Counts j (failures j ops n) (apply_all ops ts)
unfolding apply_all failures
apply_all-Counts j n [] ts keyed h = h
apply_all-Counts j n (op ∷ ops) ts keyed h =
    let after = apply-Counts j n op ts keyed h in
    apply_all-Counts j (failures_after j op n) ops (apply op ts) after.0 after.1

-- Whatever calls a queue has seen since it was empty, with whatever ids: a task has as many attempts as
-- calls have failed it since it was last enqueued; while it is pending or running, that is no
-- attempt or fewer than it may have, and once it is failed or dead-lettered, no fewer.
pub attempts_sound :
    (ops : List QueueOp) (j : String) (t : TaskRecord)
    → JsMap.get j (apply_all ops []) ≡ some t
    → (t.attempts ≡ failures j ops 0)
      × ((t.status ≡ pending) ⊎ (t.status ≡ running)
          → (failures j ops 0 ≡ 0) ⊎ (failures j ops 0 < t.max_attempts))
      × ((t.status ≡ failed) ⊎ (t.status ≡ dead_letter) → t.max_attempts ≤ failures j ops 0)
attempts_sound ops j t found =
    let sound =
      All-get IsSound j t (apply_all ops []) (apply_all-AreSound ops [] (unfold JsMap.values in tt))
        found in
    let counts =
      apply_all-Counts j 0 ops [] tt (unfold JsMap.get in λ k u e. absurd cc) j t found in
    let count = counts.1 refl in (count, (λ s. ground arith), λ s. ground arith)
