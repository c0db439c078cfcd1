-- ===== src/D2d/Settling.antt =====
-- packages/core/src/d2d/send.ts: what the end of a send makes of the provider window.
use dina_mobile.Prelude.{ℕ, String, Bool, true, false, ◌||◌, some, ◌≡◌, refl, arith}
use dina_mobile.D2d.Send.{
  Sender, Reservation, Pending, Delivery, via_websocket, threw, answered, append_audit,
  commit_provider_reservation, release_provider_reservation, try_enqueue, queue_for_retry,
  finish_send, taken_by_transport,
}
use dina_mobile.Service.QueryWindow.{commit, release}

-- What came of a delivery: whether the transport has delivered the message, or buffered it; it has
-- taken the message if it did either.
abbrev pub was_delivered : Delivery → Bool
was_delivered via_websocket = true
was_delivered threw = false
was_delivered (answered delivered buffered) = delivered

abbrev pub was_buffered : Delivery → Bool
was_buffered via_websocket = false
was_buffered threw = false
was_buffered (answered delivered buffered) = buffered

abbrev pub was_taken : Delivery → Bool
was_taken outcome = was_delivered outcome || was_buffered outcome

-- What the provider window is after the transport has taken the answer, and after it has not.
taken-provider :
    (delivered buffered : Bool) (p : Pending) (r : Reservation) (s : Sender)
    → p.reservation ≡ some r
    → (taken_by_transport delivered buffered p s).1.windows.provider
      ≡ commit r.peer_did r.query_id r.capability s.windows.provider
unfolding commit_provider_reservation append_audit
taken-provider delivered buffered p r s held = rw (held, commit_provider_reservation) refl

queued-provider :
    (outbox_id : String) (now : ℕ) (p : Pending) (r : Reservation) (s : Sender)
    → p.reservation ≡ some r
    → (queue_for_retry outbox_id now p s).1.windows.provider
      ≡ release r.peer_did r.query_id r.capability s.windows.provider
unfolding queue_for_retry try_enqueue append_audit release_provider_reservation
queued-provider outbox_id now p r s held = rw (held, release_provider_reservation) refl

pub finish_taken :
    (outbox_id : String) (now : ℕ) (outcome : Delivery) (p : Pending) (r : Reservation) (s : Sender)
    → p.reservation ≡ some r
    → was_taken outcome ≡ true
    → (finish_send outbox_id now outcome p s).1.windows.provider
      ≡ commit r.peer_did r.query_id r.capability s.windows.provider
unfolding finish_send queue_for_retry
finish_taken outbox_id now via_websocket p r s held h = taken-provider true false p r s held
finish_taken outbox_id now threw p r s held h = absurd (ground arith)
finish_taken outbox_id now (answered delivered buffered) p r s held h =
    ground (arith, taken-provider delivered buffered p r s held)

pub finish_untaken :
    (outbox_id : String) (now : ℕ) (outcome : Delivery) (p : Pending) (r : Reservation) (s : Sender)
    → p.reservation ≡ some r
    → was_taken outcome ≡ false
    → (finish_send outbox_id now outcome p s).1.windows.provider
      ≡ release r.peer_did r.query_id r.capability s.windows.provider
unfolding finish_send append_audit
finish_untaken outbox_id now via_websocket p r s held h = absurd (ground arith)
finish_untaken outbox_id now threw p r s held h = queued-provider outbox_id now p r s held
finish_untaken outbox_id now (answered delivered buffered) p r s held h =
    ground (arith, queued-provider outbox_id now p r (append_audit "d2d_send" p.request s) held)
