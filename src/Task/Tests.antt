-- ===== src/Task/Tests.antt =====
-- packages/core/src/task: the queue on concrete jobs.
use dina_mobile.Prelude.{◌≤◌, ◌<◌, none, some, List, [], ◌∷◌, ◌≡◌, ◌⊎◌, refl}
use dina_mobile.JsMap
use dina_mobile.Task.Queue.{
  pending, running, failed, dead_letter, Tasks, TaskInput, queued_task, failed_task, started,
  enqueue_task, dequeue_task, oldest_pending, fail_task,
}
use dina_mobile.Task.Jobs.{IsQueue, op_enqueue, op_fail, QueueOp, apply, apply_all}
use dina_mobile.Task.Attempts.{failures, attempts_sound}

abbrev job : TaskInput
job = record {
  id = none;
  kind = some "reminder";
  payload = none;
  max_attempts = none;
  scheduled_at = none;
}

abbrev jobs : Tasks
jobs = ("a", queued_task job "a" 20) ∷ ("b", queued_task job "b" 10) ∷ []

jobs-IsQueue : IsQueue jobs
unfolding JsMap.get JsMap.values
jobs-IsQueue = (refl, (refl, tt))

dequeued : (dequeue_task 30 jobs).0 ≡ some (started 30 (queued_task job "b" 10))
unfolding dequeue_task oldest_pending JsMap.values
dequeued = refl

abbrev calls : List QueueOp
calls = op_enqueue job "a" 20 ∷ op_fail "a" "offline" ∷ []

failed_once :
    JsMap.get "a" (apply_all calls []) ≡ some (failed_task "offline" (queued_task job "a" 20))
unfolding apply_all apply enqueue_task fail_task JsMap.get JsMap.set
failed_once = refl

attempts_sound_example :
    let t = failed_task "offline" (queued_task job "a" 20) in
    (t.attempts ≡ failures "a" calls 0)
    × ((t.status ≡ pending) ⊎ (t.status ≡ running)
        → (failures "a" calls 0 ≡ 0) ⊎ (failures "a" calls 0 < t.max_attempts))
    × ((t.status ≡ failed) ⊎ (t.status ≡ dead_letter) → t.max_attempts ≤ failures "a" calls 0)
attempts_sound_example =
    attempts_sound calls "a" (failed_task "offline" (queued_task job "a" 20)) failed_once
