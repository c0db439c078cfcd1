-- ===== src/Transport/Retry.antt =====
-- packages/core/src/transport/retry.ts: the retry pass. What the injected delivery function returns
-- and the calls that other code makes while it is awaited are arguments; the calls of the function
-- are written to a log.
use dina_mobile.Prelude.{
  true, false, ℕ, ◌+◌, ◌-◌, String, Bool, Option, none, some, List, [], ◌∷◌, length, if◌then◌else◌,
  ok, err,
}
use dina_mobile.Transport.Outbox.{
  OutboxEntry, Outbox, enqueue_message, mark_delivered, mark_failed, delete_expired,
  resume_after_approval, get_pending_for_retry,
}

pub record RetryResult : Type 0 where
  pub attempted : ℕ
  pub delivered : ℕ
  pub failed : ℕ
  pub expired : ℕ

abbrev pub outbox_ttl_s : ℕ
outbox_ttl_s = 86400

-- The outbox, whether a delivery function is set, and the ids it was called for, the last first.
pub record Sender : Type 0 where
  pub outbox : Outbox
  pub fn_set : Bool
  pub sent : List String

-- The calls of outbox.ts that change the outbox.
pub data Call : Type 0 where
  call_enqueue : String → List ℕ → String → ℕ → Call
  call_delivered : String → Call
  call_failed : String → ℕ → Call
  call_expire : ℕ → ℕ → Call
  call_resume : String → ℕ → Call

unfoldable pub perform : Call → Outbox → Outbox
unfolding enqueue_message mark_failed delete_expired resume_after_approval
perform (call_enqueue did payload id now) b = (enqueue_message did payload id now b).1
perform (call_delivered id) b = mark_delivered id b
perform (call_failed id now) b = (mark_failed id now b).1
perform (call_expire ttl now) b = (delete_expired ttl now b).1
perform (call_resume id now) b = (resume_after_approval id now b).1

unfoldable pub perform_all : List Call → Outbox → Outbox
perform_all [] b = b
perform_all (c ∷ cs) b = perform_all cs (perform c b)

pub data Outcome : Type 0 where
  accepted refused threw : Outcome

-- How the send of one message goes, given by its id: the calls made while it is awaited, the outcome, and the time
-- after it.
pub record Turn : Type 0 where
  pub meanwhile : List Call
  pub outcome : Outcome
  pub clock : ℕ

-- The call of the delivery function, if one is set; without one the outcome is `false`, at once.
unfoldable pub deliver : OutboxEntry → Turn → Sender → Outcome × Sender
unfolding perform_all
deliver entry turn s =
    if s.fn_set
    then (
      turn.outcome,
      record s { outbox = perform_all turn.meanwhile s.outbox; sent = entry.id ∷ s.sent },
    )
    else (refused, s)

abbrev pub count_delivered : RetryResult → RetryResult
count_delivered r = record r { attempted = r.attempted + 1; delivered = r.delivered + 1 }

abbrev pub count_failed : RetryResult → RetryResult
count_failed r = record r { attempted = r.attempted + 1; failed = r.failed + 1 }

-- `markFailed` in the `try` throws if the entry is gone; it is then called again in the handler,
-- where its error is dropped.
unfoldable pub mark_failed_twice : String → ℕ → Outbox → Outbox
unfolding mark_failed
mark_failed_twice id now b = elim (mark_failed id now b).0 [
  | ok _ ↦ (mark_failed id now b).1
  | err _ ↦ (mark_failed id now (mark_failed id now b).1).1
]

-- What follows the delivery.
unfoldable pub settle : OutboxEntry → ℕ → Outcome × Sender → RetryResult → RetryResult × Sender
unfolding mark_failed_twice
settle entry now (accepted, s) r =
    (count_delivered r, record s { outbox = mark_delivered entry.id s.outbox })
settle entry now (refused, s) r =
    (count_failed r, record s { outbox = mark_failed_twice entry.id now s.outbox })
settle entry now (threw, s) r =
    (count_failed r, record s { outbox = (mark_failed entry.id now s.outbox).1 })

-- The loop over the messages that were ready when it began.
unfoldable pub retry_loop :
    (String → Turn) → List OutboxEntry → RetryResult → Sender → RetryResult × Sender
unfolding deliver settle
retry_loop turn [] r s = (r, s)
retry_loop turn (entry ∷ rest) r s =
    let (r', s') = settle entry (turn entry.id).clock (deliver entry (turn entry.id) s) r in
    retry_loop turn rest r' s'

unfoldable pub retry_pending_outbox : (String → Turn) → ℕ → Sender → RetryResult × Sender
unfolding retry_loop delete_expired get_pending_for_retry
retry_pending_outbox turn now s =
    let (expired, b) = delete_expired outbox_ttl_s now s.outbox in
    retry_loop turn (get_pending_for_retry now b)
      (record { attempted = 0; delivered = 0; failed = 0; expired = expired })
      (record s { outbox = b })

-- What runs: a call, or a retry pass at a time.
pub data Event : Type 0 where
  ev_call : Call → Event
  ev_retry : (String → Turn) → ℕ → Event

unfoldable pub happen : Event → Sender → Sender
unfolding perform retry_pending_outbox
happen (ev_call c) s = record s { outbox = perform c s.outbox }
happen (ev_retry turn now) s = (retry_pending_outbox turn now s).1

unfoldable pub happen_all : List Event → Sender → Sender
happen_all [] s = s
happen_all (e ∷ es) s = happen_all es (happen e s)

-- `next_retry_in` is `max(0, nextRetryAt - now)`.
unfoldable pub get_retry_status : ℕ → Outbox → ℕ × Option ℕ
unfolding get_pending_for_retry
get_retry_status now b = elim (get_pending_for_retry now b) [
  | [] ↦ (0, none)
  | next ∷ rest ↦ (length rest + 1, some (next.next_retry_at - now))
]

unfoldable pub set_retry_delivery_fn : Sender → Sender
set_retry_delivery_fn s = record s { fn_set = true }

unfoldable pub reset_retry_state : Sender → Sender
reset_retry_state s = record s { fn_set = false }
