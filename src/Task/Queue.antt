-- ===== src/Task/Queue.antt =====
-- packages/core/src/task/queue.ts: the queue of background jobs. The random part of an id is an
-- argument; `now` is the time in seconds.
use dina_mobile.Prelude.{
  ℕ, ◌+◌, String, Bool, true, false, not, Option, none, some, List, [], ◌∷◌, ◌&&◌, leb, ltb, nat_eq,
  length, keep, if◌then◌else◌, or_default, Result, ok, err,
}
use dina_mobile.JsMap
use dina_mobile.JsMap.{JsMap}

pub data TaskStatus : Type 0 where
  pending running completed failed dead_letter : TaskStatus

abbrev pub is_pending : TaskStatus → Bool
is_pending pending = true
is_pending _ = false

abbrev pub is_running : TaskStatus → Bool
is_running running = true
is_running _ = false

abbrev pub is_failed : TaskStatus → Bool
is_failed failed = true
is_failed _ = false

pub record TaskRecord : Type 0 where
  pub id : String
  pub kind : String
  pub payload : String
  pub status : TaskStatus
  pub attempts : ℕ
  pub max_attempts : ℕ
  pub scheduled_at : ℕ
  pub started_at : Option ℕ
  pub completed_at : Option ℕ
  pub error : String
  pub created_at : ℕ

abbrev pub Tasks : Type 0
Tasks = JsMap TaskRecord

pub data TaskError : Type 0 where
  task_not_found : TaskError

-- The fields of a `Partial<TaskRecord>` that `enqueueTask` reads.
pub record TaskInput : Type 0 where
  pub id : Option String
  pub kind : Option String
  pub payload : Option String
  pub max_attempts : Option ℕ
  pub scheduled_at : Option ℕ

abbrev pub queued_task : TaskInput → String → ℕ → TaskRecord
queued_task task id now = record {
  id = id;
  kind = or_default task.kind "unknown";
  payload = or_default task.payload "{}";
  status = pending;
  attempts = 0;
  max_attempts = or_default task.max_attempts 3;
  scheduled_at = or_default task.scheduled_at now;
  started_at = none;
  completed_at = none;
  error = "";
  created_at = now;
}

unfoldable pub enqueue_task : TaskInput → String → ℕ → Tasks → String × Tasks
enqueue_task task random_id now ts =
    let id = or_default task.id random_id in (id, JsMap.set id (queued_task task id now) ts)

-- The loop of `dequeueTask`, with the oldest pending task so far.
abbrev pub older : Option TaskRecord → TaskRecord → Option TaskRecord
older none task = some task
older (some oldest) task = if ltb task.created_at oldest.created_at then some task else some oldest

unfoldable pub oldest_pending : List TaskRecord → Option TaskRecord → Option TaskRecord
oldest_pending [] oldest = oldest
oldest_pending (task ∷ tasks) oldest =
    oldest_pending tasks (if is_pending task.status then older oldest task else oldest)

abbrev pub started : ℕ → TaskRecord → TaskRecord
started now task = record task { status = running; started_at = some now }

-- The task that is found is changed in its place.
unfoldable pub dequeue_task : ℕ → Tasks → Option TaskRecord × Tasks
unfolding oldest_pending
dequeue_task now ts = elim (oldest_pending (JsMap.values ts) none) [
  | none ↦ (none, ts)
  | some oldest ↦ (some (started now oldest), JsMap.set oldest.id (started now oldest) ts)
]

unfoldable pub complete_task : String → ℕ → Tasks → Result TaskError Unit × Tasks
complete_task task_id now ts = elim (JsMap.get task_id ts) [
  | none ↦ (err task_not_found, ts)
  | some task ↦
      (ok tt, JsMap.set task_id (record task { status = completed; completed_at = some now }) ts)
]

abbrev pub failed_task : String → TaskRecord → TaskRecord
failed_task reason task = record task {
  attempts = task.attempts + 1;
  error = reason;
  status = if leb task.max_attempts (task.attempts + 1) then failed else pending;
  started_at = none;
}

unfoldable pub fail_task : String → String → Tasks → Result TaskError Unit × Tasks
fail_task task_id reason ts = elim (JsMap.get task_id ts) [
  | none ↦ (err task_not_found, ts)
  | some task ↦ (ok tt, JsMap.set task_id (failed_task reason task) ts)
]

-- `task.started_at && now - task.started_at > timeoutSeconds`
abbrev past_timeout : ℕ → ℕ → Option ℕ → Bool
past_timeout timeout_seconds now none = false
past_timeout timeout_seconds now (some at) = not (nat_eq at 0) && ltb (at + timeout_seconds) now

unfoldable pub is_stale : ℕ → ℕ → TaskRecord → Bool
is_stale timeout_seconds now task =
    is_running task.status && past_timeout timeout_seconds now task.started_at

unfoldable pub recover_stale_tasks : ℕ → ℕ → Tasks → ℕ × Tasks
unfolding is_stale
recover_stale_tasks timeout_seconds now ts = (
  length (keep (is_stale timeout_seconds now) (JsMap.values ts)),
  JsMap.update_all
      (λ t.
        if is_stale timeout_seconds now t
        then record t { status = pending; started_at = none }
        else t)
      ts,
)

unfoldable pub is_exhausted : TaskRecord → Bool
is_exhausted task = is_failed task.status && leb task.max_attempts task.attempts

unfoldable pub dead_letter_exhausted : Tasks → ℕ × Tasks
unfolding is_exhausted
dead_letter_exhausted ts = (
  length (keep is_exhausted (JsMap.values ts)),
  JsMap.update_all (λ t. if is_exhausted t then record t { status = dead_letter } else t) ts,
)

unfoldable pub get_task : String → Tasks → Option TaskRecord
get_task task_id ts = JsMap.get task_id ts

abbrev pub clear_tasks : Tasks
clear_tasks = []
