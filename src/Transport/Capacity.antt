-- ===== src/Transport/Capacity.antt =====
-- packages/core/src/transport: how many messages the outbox holds.
use dina_mobile.Prelude.{
  ℕ, ◌≤◌, String, not, some, List, [], ◌∷◌, ◌≡◌, inl, inr, arith, Option-cases,
}
use dina_mobile.JsMap
use dina_mobile.JsMap.{size-set, size-retain-le}
use dina_mobile.Transport.Outbox.{
  OutboxEntry, Outbox, delivered, pending, enqueue_message, enqueued, mark_delivered, mark_failed,
  failed_at, delete_expired, is_past_ttl, resume_after_approval, get_pending_for_retry,
  max_queue_size,
}
use dina_mobile.Transport.Retry.{
  Call, call_enqueue, call_delivered, call_failed, call_expire, call_resume, perform, perform_all,
  Turn, Outcome, accepted, refused, threw, Sender, RetryResult, deliver, settle, mark_failed_twice,
  retry_loop, retry_pending_outbox, outbox_ttl_s, Event, ev_call, ev_retry, happen, happen_all,
}

size-set_there :
    (id : String) (e u : OutboxEntry) (b : Outbox)
    → JsMap.get id b ≡ some e
    → JsMap.size (JsMap.set id u b) ≡ JsMap.size b
unfolding JsMap.has
size-set_there id e u b found = ground (arith, size-set id u b)

size-mark_delivered : (id : String) (b : Outbox) → JsMap.size (mark_delivered id b) ≡ JsMap.size b
unfolding mark_delivered
size-mark_delivered id b = elim (Option-cases (JsMap.get id b)) [
  | inl gone ↦ ground arith
  | inr (e, found) ↦ ground (arith, size-set_there id e (record e { status = delivered }) b found)
]

size-mark_failed :
    (id : String) (now : ℕ) (b : Outbox) → JsMap.size (mark_failed id now b).1 ≡ JsMap.size b
unfolding mark_failed
size-mark_failed id now b = elim (Option-cases (JsMap.get id b)) [
  | inl gone ↦ ground arith
  | inr (e, found) ↦ ground (arith, size-set_there id e (failed_at now e) b found)
]

size-resume :
    (id : String) (now : ℕ) (b : Outbox)
    → JsMap.size (resume_after_approval id now b).1 ≡ JsMap.size b
unfolding resume_after_approval
size-resume id now b = elim (Option-cases (JsMap.get id b)) [
  | inl gone ↦ ground arith
  | inr (e, found) ↦
      ground
        (arith, size-set_there id e (record e { status = pending; next_retry_at = now }) b found)
]

abbrev pub IsBounded : Outbox → Type 0
IsBounded b = JsMap.size b ≤ max_queue_size

perform-IsBounded : (c : Call) (b : Outbox) → IsBounded b → IsBounded (perform c b)
unfolding perform
perform-IsBounded (call_enqueue did payload id now) b h =
    unfold enqueue_message in ground (arith, size-set id (enqueued id did payload now) b)
perform-IsBounded (call_delivered id) b h = ground (arith, size-mark_delivered id b)
perform-IsBounded (call_failed id now) b h = ground (arith, size-mark_failed id now b)
perform-IsBounded (call_expire ttl now) b h =
    unfold delete_expired in
    ground (arith, size-retain-le (λ entry. not (is_past_ttl ttl now entry)) b)
perform-IsBounded (call_resume id now) b h = ground (arith, size-resume id now b)

perform_all-IsBounded : (cs : List Call) (b : Outbox) → IsBounded b → IsBounded (perform_all cs b)
unfolding perform_all
perform_all-IsBounded [] b h = h
perform_all-IsBounded (c ∷ cs) b h =
    perform_all-IsBounded cs (perform c b) (perform-IsBounded c b h)

mark_failed_twice-IsBounded :
    (id : String) (now : ℕ) (b : Outbox) → IsBounded b → IsBounded (mark_failed_twice id now b)
unfolding mark_failed_twice
mark_failed_twice-IsBounded id now b h =
    ground (arith, size-mark_failed id now b, size-mark_failed id now (mark_failed id now b).1)

deliver-IsBounded :
    (e : OutboxEntry) (turn : Turn) (s : Sender)
    → IsBounded s.outbox
    → IsBounded (deliver e turn s).1.outbox
unfolding deliver
deliver-IsBounded e turn s h = ground (arith, perform_all-IsBounded turn.meanwhile s.outbox h)

settle-IsBounded :
    (e : OutboxEntry) (now : ℕ) (o : Outcome) (s : Sender) (r : RetryResult)
    → IsBounded s.outbox
    → IsBounded (settle e now (o, s) r).1.outbox
unfolding settle
settle-IsBounded e now accepted s r h = ground (arith, size-mark_delivered e.id s.outbox)
settle-IsBounded e now refused s r h = mark_failed_twice-IsBounded e.id now s.outbox h
settle-IsBounded e now threw s r h = ground (arith, size-mark_failed e.id now s.outbox)

retry_loop-IsBounded :
    (turn : String → Turn) (es : List OutboxEntry) (r : RetryResult) (s : Sender)
    → IsBounded s.outbox
    → IsBounded (retry_loop turn es r s).1.outbox
unfolding retry_loop
retry_loop-IsBounded turn [] r s h = h
retry_loop-IsBounded turn (e ∷ es) r s h =
    let d = deliver e (turn e.id) s in
    let (r', s') = settle e (turn e.id).clock d r in
    retry_loop-IsBounded turn es r' s'
      (settle-IsBounded e (turn e.id).clock d.0 d.1 r (deliver-IsBounded e (turn e.id) s h))

happen-IsBounded : (e : Event) (s : Sender) → IsBounded s.outbox → IsBounded (happen e s).outbox
unfolding happen
happen-IsBounded (ev_call c) s h = perform-IsBounded c s.outbox h
happen-IsBounded (ev_retry turn now) s h =
    unfold retry_pending_outbox in
    retry_loop-IsBounded turn
      (get_pending_for_retry now (delete_expired outbox_ttl_s now s.outbox).1)
      (record {
        attempted = 0;
        delivered = 0;
        failed = 0;
        expired = (delete_expired outbox_ttl_s now s.outbox).0;
      })
      (record s { outbox = (delete_expired outbox_ttl_s now s.outbox).1 })
      (perform-IsBounded (call_expire outbox_ttl_s now) s.outbox h)

-- Whatever calls and retry passes happen from an outbox within its limit, with whatever calls while
-- the passes await a delivery, the outbox never holds more than its limit of 100 messages.
pub outbox_bounded :
    (es : List Event) (s : Sender)
    → JsMap.size s.outbox ≤ max_queue_size
    → JsMap.size (happen_all es s).outbox ≤ max_queue_size
unfolding happen_all
outbox_bounded [] s h = h
outbox_bounded (e ∷ es) s h = outbox_bounded es (happen e s) (happen-IsBounded e s h)
