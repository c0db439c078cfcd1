-- ===== src/Transport/Outbox.antt =====
-- packages/core/src/transport/outbox.ts: the outbox. Random ids come in as arguments, `now` is
-- `Date.now()` in milliseconds, a payload is a list of bytes.
use dina_mobile.Prelude.{
  ℕ, ◌+◌, ◌*◌, ◌^◌, String, Bool, true, false, none, some, List, [], ◌&&◌, length, leb, ltb, not,
  keep, sort_by, if◌then◌else◌, Result, ok, err,
}
use dina_mobile.JsMap
use dina_mobile.JsMap.{JsMap}

pub data OutboxStatus : Type 0 where
  pending delivered failed : OutboxStatus

pub record OutboxEntry : Type 0 where
  pub id : String
  pub recipient_did : String
  pub payload : List ℕ
  pub status : OutboxStatus
  pub retry_count : ℕ
  pub next_retry_at : ℕ
  pub created_at : ℕ

abbrev pub Outbox : Type 0
Outbox = JsMap OutboxEntry

pub data OutboxError : Type 0 where
  queue_full message_not_found : OutboxError

abbrev pub max_retries : ℕ
max_retries = 5

abbrev pub max_queue_size : ℕ
max_queue_size = 100

unfoldable pub compute_backoff : ℕ → ℕ
compute_backoff retry_count = 30000 * 2 ^ retry_count

abbrev pub enqueued : String → String → List ℕ → ℕ → OutboxEntry
enqueued id recipient_did payload now = record {
  id = id;
  recipient_did = recipient_did;
  payload = payload;
  status = pending;
  retry_count = 0;
  next_retry_at = now;
  created_at = now;
}

unfoldable pub enqueue_message :
    String → List ℕ → String → ℕ → Outbox → Result OutboxError String × Outbox
enqueue_message recipient_did payload id now b =
    if leb max_queue_size (JsMap.size b)
    then (err queue_full, b)
    else (ok id, JsMap.set id (enqueued id recipient_did payload now) b)

unfoldable pub mark_delivered : String → Outbox → Outbox
mark_delivered id b = elim (JsMap.get id b) [
  | none ↦ b
  | some entry ↦ JsMap.set id (record entry { status = delivered }) b
]

abbrev pub failed_at : ℕ → OutboxEntry → OutboxEntry
failed_at now entry = record entry {
  status = failed;
  retry_count = entry.retry_count + 1;
  next_retry_at = now + compute_backoff (entry.retry_count + 1);
}

unfoldable pub mark_failed : String → ℕ → Outbox → Result OutboxError Unit × Outbox
mark_failed id now b = elim (JsMap.get id b) [
  | none ↦ (err message_not_found, b)
  | some entry ↦ (ok tt, JsMap.set id (failed_at now entry) b)
]

unfoldable pub is_dead_lettered : String → Outbox → Bool
is_dead_lettered id b = elim (JsMap.get id b) [
  | none ↦ false
  | some entry ↦ leb max_retries entry.retry_count
]

abbrev pub is_delivered : OutboxStatus → Bool
is_delivered delivered = true
is_delivered _ = false

abbrev pub is_pending : OutboxStatus → Bool
is_pending pending = true
is_pending _ = false

unfoldable pub is_ready : ℕ → OutboxEntry → Bool
is_ready now entry =
    not (is_delivered entry.status)
    && ltb entry.retry_count max_retries
    && leb entry.next_retry_at now

abbrev pub due_at : OutboxEntry → ℕ
due_at entry = entry.next_retry_at

unfoldable pub get_pending_for_retry : ℕ → Outbox → List OutboxEntry
unfolding is_ready sort_by
get_pending_for_retry now b = sort_by due_at (keep (is_ready now) (JsMap.values b))

-- `createdAt < now - ttlSeconds * 1000`, and the entry is not pending.
unfoldable pub is_past_ttl : ℕ → ℕ → OutboxEntry → Bool
is_past_ttl ttl_seconds now entry =
    ltb (entry.created_at + ttl_seconds * 1000) now && not (is_pending entry.status)

unfoldable pub delete_expired : ℕ → ℕ → Outbox → ℕ × Outbox
unfolding is_past_ttl
delete_expired ttl_seconds now b = (
  length (keep (is_past_ttl ttl_seconds now) (JsMap.values b)),
  JsMap.retain (λ entry. not (is_past_ttl ttl_seconds now entry)) b,
)

unfoldable pub resume_after_approval : String → ℕ → Outbox → Result OutboxError Unit × Outbox
resume_after_approval id now b = elim (JsMap.get id b) [
  | none ↦ (err message_not_found, b)
  | some entry ↦ (ok tt, JsMap.set id (record entry { status = pending; next_retry_at = now }) b)
]

abbrev pub clear_outbox : Outbox
clear_outbox = []

unfoldable pub outbox_size : Outbox → ℕ
outbox_size b = JsMap.size b
