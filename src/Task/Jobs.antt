-- ===== src/Task/Jobs.antt =====
-- packages/core/src/task/queue.ts: which job is next, and how often one is tried.
use dina_mobile.Prelude.{
  subst, All-map, ℕ, ◌≤◌, String, Bool, true, Option, none, some, List, [], ◌∷◌, ◌≡◌, refl, inl,
  inr, arith, ◌==◌, ◌&&◌, ◌||◌, leb, ltb, nat_eq, All, if◌then◌else◌, or_default, Option-cases,
  Bool-cases,
}
use dina_mobile.JsMap
use dina_mobile.JsMap.{JsMap, IsKeyed, get-set, get-update_all, All-set, All-update_all, All-get}
use dina_mobile.Task.Queue.{
  pending, running, completed, failed, dead_letter, is_pending, TaskRecord, Tasks, TaskInput,
  queued_task, enqueue_task, older, oldest_pending, started, dequeue_task, complete_task,
  failed_task, fail_task, is_stale, recover_stale_tasks, is_exhausted, dead_letter_exhausted,
}

-- What is found is no younger than the pending tasks, nor than the one that the loop began with.
oldest_pending_min :
    (ts : List TaskRecord) (best : Option TaskRecord) (w : TaskRecord)
    → oldest_pending ts best ≡ some w
    → All (λ t. t.status ≡ pending → w.created_at ≤ t.created_at) ts
      × ((b : TaskRecord) → best ≡ some b → w.created_at ≤ b.created_at)
unfolding oldest_pending
oldest_pending_min [] best w h = (tt, λ b e. ground arith)
oldest_pending_min (t ∷ ts) none w h =
    let next = if is_pending t.status then older none t else none in
    let rest = oldest_pending_min ts next w h in
    ((λ p. ground (arith, rest.1 t), rest.0), λ b e. ground arith)
oldest_pending_min (t ∷ ts) (some x) w h =
    let next = if is_pending t.status then older (some x) t else some x in
    let rest = oldest_pending_min ts next w h in
    ((λ p. ground (arith, rest.1 t, rest.1 x), rest.0), λ b e. ground (arith, rest.1 t, rest.1 x))

-- What is found is one of the pending tasks, or the one that the loop began with.
pub oldest_pending_holds :
    (P : TaskRecord → Type 0) (ts : List TaskRecord) (best : Option TaskRecord) (w : TaskRecord)
    → All (λ t. t.status ≡ pending → P t) ts
    → ((b : TaskRecord) → best ≡ some b → P b)
    → oldest_pending ts best ≡ some w
    → P w
unfolding oldest_pending
oldest_pending_holds P [] best w all first h = first w h
oldest_pending_holds P (t ∷ ts) best w all first h =
    let next = if is_pending t.status then older best t else best in
    oldest_pending_holds P ts next w all.1 (next_holds t best all.0 first) h
  where
    next_holds :
        (t : TaskRecord) (best : Option TaskRecord)
        → (t.status ≡ pending → P t)
        → ((b : TaskRecord) → best ≡ some b → P b)
        → (b : TaskRecord) → (if is_pending t.status then older best t else best) ≡ some b
        → P b
    next_holds t none new old b e = elim (Bool-cases (is_pending t.status)) [
      | inl yes_pending ↦ subst P (ground arith) (new (ground arith))
      | inr not_pending ↦ absurd (ground arith)
    ]
    next_holds t (some x) new old b e =
        elim (Bool-cases (is_pending t.status && ltb t.created_at x.created_at)) [
          | inl younger ↦ subst P (ground arith) (new (ground arith))
          | inr older_one ↦ subst P (ground arith) (old x refl)
        ]

-- Each task is found under its id.
abbrev pub IsQueue : Tasks → Type 0
IsQueue ts = All (λ t. JsMap.get t.id ts ≡ some t) (JsMap.values ts)

-- In a queue that has each task under its id: what is dequeued was a pending task of the queue, as old as
-- any pending one; it is running in the queue now, and no other task has changed.
pub dequeue_oldest :
    (now : ℕ) (ts : Tasks) (w : TaskRecord)
    → IsQueue ts
    → (dequeue_task now ts).0 ≡ some w
    → (t : TaskRecord) × (JsMap.get t.id ts ≡ some t)
      × (t.status ≡ pending)
      × (w ≡ started now t)
      × All (λ o. o.status ≡ pending → t.created_at ≤ o.created_at) (JsMap.values ts)
      × ((j : String)
          → JsMap.get j (dequeue_task now ts).1 ≡ (if t.id == j then some w else JsMap.get j ts))
unfolding dequeue_task
dequeue_oldest now ts w q h = elim (Option-cases (oldest_pending (JsMap.values ts) none)) [
  | inl nothing ↦ absurd (ground arith)
  | inr (t, found) ↦
      let held =
        oldest_pending_holds (λ x. (JsMap.get x.id ts ≡ some x) × (x.status ≡ pending))
          (JsMap.values ts) none t
          (All-map (λ x. JsMap.get x.id ts ≡ some x)
            (λ x. x.status ≡ pending → (JsMap.get x.id ts ≡ some x) × (x.status ≡ pending))
            (λ x g p. (g, p)) (JsMap.values ts) q)
          (λ b e. absurd cc) found in
      (
        t,
        held.0,
        held.1,
        ground arith,
        (oldest_pending_min (JsMap.values ts) none t found).0,
        λ j. ground (arith, get-set t.id j (started now t) ts),
      )
]

-- The calls of the queue.
pub data QueueOp : Type 0 where
  op_enqueue : TaskInput → String → ℕ → QueueOp
  op_dequeue : ℕ → QueueOp
  op_complete : String → ℕ → QueueOp
  op_fail : String → String → QueueOp
  op_recover : ℕ → ℕ → QueueOp
  op_bury : QueueOp

unfoldable pub apply : QueueOp → Tasks → Tasks
unfolding enqueue_task dequeue_task recover_stale_tasks dead_letter_exhausted
apply (op_enqueue task random_id now) ts = (enqueue_task task random_id now ts).1
apply (op_dequeue now) ts = (dequeue_task now ts).1
apply (op_complete id now) ts = (complete_task id now ts).1
apply (op_fail id reason) ts = (fail_task id reason ts).1
apply (op_recover timeout_seconds now) ts = (recover_stale_tasks timeout_seconds now ts).1
apply op_bury ts = (dead_letter_exhausted ts).1

unfoldable pub apply_all : List QueueOp → Tasks → Tasks
apply_all [] ts = ts
apply_all (op ∷ ops) ts = apply_all ops (apply op ts)

-- A task that may run has attempts left, or no attempt of it has failed; one that gave up has none left.
abbrev pub has_sound_attempts : TaskRecord → Bool
has_sound_attempts t = elim t.status [
  | pending ↦ nat_eq t.attempts 0 || ltb t.attempts t.max_attempts
  | running ↦ nat_eq t.attempts 0 || ltb t.attempts t.max_attempts
  | completed ↦ true
  | failed ↦ leb t.max_attempts t.attempts
  | dead_letter ↦ leb t.max_attempts t.attempts
]

abbrev pub IsSound : TaskRecord → Type 0
IsSound t = has_sound_attempts t ≡ true

abbrev pub AreSound : Tasks → Type 0
AreSound ts = All IsSound (JsMap.values ts)

dequeue-AreSound : (now : ℕ) (ts : Tasks) → AreSound ts → AreSound (dequeue_task now ts).1
unfolding dequeue_task
dequeue-AreSound now ts h = elim (Option-cases (oldest_pending (JsMap.values ts) none)) [
  | inl nothing ↦ rw (nothing, dequeue_task) h
  | inr (t, found) ↦
      let held =
        oldest_pending_holds (λ x. IsSound x × (x.status ≡ pending)) (JsMap.values ts) none t
          (All-map IsSound (λ x. x.status ≡ pending → IsSound x × (x.status ≡ pending))
            (λ x g p. (g, p)) (JsMap.values ts) h)
          (λ b e. absurd cc) found in
      rw (found, dequeue_task) (All-set IsSound t.id (started now t) ts (ground arith) h)
]

complete-AreSound :
    (id : String) (now : ℕ) (ts : Tasks) → AreSound ts → AreSound (complete_task id now ts).1
unfolding complete_task
complete-AreSound id now ts h = elim (Option-cases (JsMap.get id ts)) [
  | inl gone ↦ rw (gone, complete_task) h
  | inr (t, found) ↦
      rw (found, complete_task)
        (All-set IsSound id (record t { status = completed; completed_at = some now }) ts refl h)
]

fail-AreSound :
    (id reason : String) (ts : Tasks) → AreSound ts → AreSound (fail_task id reason ts).1
unfolding fail_task
fail-AreSound id reason ts h = elim (Option-cases (JsMap.get id ts)) [
  | inl gone ↦ rw (gone, fail_task) h
  | inr (t, found) ↦
      rw (found, fail_task) (All-set IsSound id (failed_task reason t) ts (ground arith) h)
]

apply-AreSound : (op : QueueOp) (ts : Tasks) → AreSound ts → AreSound (apply op ts)
unfolding apply
apply-AreSound (op_enqueue task random_id now) ts h =
    unfold enqueue_task in
    All-set IsSound (or_default task.id random_id)
      (queued_task task (or_default task.id random_id) now) ts refl h
apply-AreSound (op_dequeue now) ts h = dequeue-AreSound now ts h
apply-AreSound (op_complete id now) ts h = complete-AreSound id now ts h
apply-AreSound (op_fail id reason) ts h = fail-AreSound id reason ts h
apply-AreSound (op_recover timeout_seconds now) ts h =
    unfold recover_stale_tasks is_stale in All-update_all IsSound _ ts (λ t s. ground arith) h
apply-AreSound op_bury ts h =
    unfold dead_letter_exhausted is_exhausted in All-update_all IsSound _ ts (λ t s. ground arith) h

pub apply_all-AreSound :
    (ops : List QueueOp) (ts : Tasks) → AreSound ts → AreSound (apply_all ops ts)
unfolding apply_all
apply_all-AreSound [] ts h = h
apply_all-AreSound (op ∷ ops) ts h = apply_all-AreSound ops (apply op ts) (apply-AreSound op ts h)
