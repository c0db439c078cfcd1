-- ===== src/D2d/Send.antt =====
-- packages/core/src/d2d/send.ts: the send pipeline, in the two stretches that run without a wait:
-- `begin_send` up to the delivery, `finish_send` with the outcome of the delivery. Other calls may
-- come between the two. Sealing is an argument, the ids come in as arguments, `now` is in
-- milliseconds. The audit log is the list of its lines, newest first; a sender is not blank. The
-- resolver of public services answers false where its lookup fails. Texts of errors are left out.
use dina_mobile.Prelude.{
  ℕ, String, Bool, true, false, not, ◌||◌, Option, none, some, List, ◌∷◌, ◌==◌, if◌then◌else◌, ok,
  err,
}
use dina_mobile.D2d.Families.{is_valid_v1_type}
use dina_mobile.D2d.Gates.{GateState, Gate, check_egress_gates}
use dina_mobile.D2d.Receive.{AuditLine}
use dina_mobile.Service.QueryWindow.{Windows, reserve, commit, release, set_requester_window}
use dina_mobile.Service.Bodies.{Json, ServiceBody}
use dina_mobile.Service.Bypass.{
  ServiceBypassDecision, not_service, allow, deny, msg_type_service_query,
  msg_type_service_response, evaluate_service_egress_bypass,
}
use dina_mobile.Transport.Outbox.{Outbox, enqueue_message}

pub record SendRequest : Type 0 where
  pub recipient_did : String
  pub message_type : String
  pub body : String
  pub sender_did : String
  pub data_categories : List String
  pub public_service_resolver : Option (String → String → Bool)

pub data DeniedAt : Type 0 where
  type_enforcement service_bypass seal_failed : DeniedAt
  egress_gate : Option Gate → DeniedAt

pub record SendResult : Type 0 where
  pub sent : Bool
  pub delivered : Bool
  pub buffered : Bool
  pub queued : Bool
  pub denied_at : Option DeniedAt

pub record Sender : Type 0 where
  pub gates : GateState
  pub windows : Windows
  pub outbox : Outbox
  pub audit : List AuditLine

pub record Reservation : Type 0 where
  pub peer_did : String
  pub query_id : String
  pub capability : String

-- A send that waits for its delivery.
pub record Pending : Type 0 where
  pub request : SendRequest
  pub payload : List ℕ
  pub reservation : Option Reservation

pub data Begun : Type 0 where
  over : SendResult → Begun
  waiting : Pending → Begun

unfoldable pub append_audit : String → SendRequest → Sender → Sender
append_audit action req s = record s {
  audit =
      record { actor = req.sender_did; action = action; resource = req.recipient_did } ∷ s.audit;
}

abbrev pub denied_result : DeniedAt → SendResult
denied_result at = record {
  sent = false;
  delivered = false;
  buffered = false;
  queued = false;
  denied_at = some at;
}

abbrev pub deny_send : DeniedAt → SendRequest → Sender → Begun × Sender
deny_send at req s = (over (denied_result at), append_audit "d2d_send_denied" req s)

unfoldable pub commit_provider_reservation : Option Reservation → Sender → Sender
commit_provider_reservation none s = s
commit_provider_reservation (some r) s = record s {
  windows = record s.windows {
    provider = commit r.peer_did r.query_id r.capability s.windows.provider;
  };
}

unfoldable pub release_provider_reservation : Option Reservation → Sender → Sender
release_provider_reservation none s = s
release_provider_reservation (some r) s = record s {
  windows = record s.windows {
    provider = release r.peer_did r.query_id r.capability s.windows.provider;
  };
}

-- The decision, with `not-service` for what the contact gate is to handle.
abbrev pub unless_not_service : ServiceBypassDecision → Option ServiceBypassDecision
unless_not_service not_service = none
unless_not_service d = some d

-- `seal` signs, seals and encodes the body of a request, with none where it throws; `parse` is
-- `JSON.parse`, with none where it throws.
module _ (parse : String → Option Json) (seal : SendRequest → Option (List ℕ)) where
  unfoldable pub evaluate_service_bypass : SendRequest → Option ServiceBypassDecision
  evaluate_service_bypass req =
      if req.message_type == msg_type_service_query
      then elim req.public_service_resolver [
        | none ↦ none
        | some resolver ↦ unless_not_service (
            evaluate_service_egress_bypass parse req.message_type req.recipient_did req.body
              (some resolver))
      ]
      else if req.message_type == msg_type_service_response
      then unless_not_service
          (evaluate_service_egress_bypass parse req.message_type req.recipient_did req.body none)
      else none

  -- Seals the message; where that fails the reservation is given back.
  unfoldable pub seal_and_wait : Option Reservation → SendRequest → Sender → Begun × Sender
  seal_and_wait reservation req s = elim (seal req) [
    | none ↦ deny_send seal_failed req (release_provider_reservation reservation s)
    | some payload ↦
        (waiting (record { request = req; payload = payload; reservation = reservation }), s)
  ]

  -- A response that the bypass allows reserves the provider window first.
  unfoldable pub begin_response : ℕ → ServiceBody → SendRequest → Sender → Begun × Sender
  begin_response now body req s =
      let (reserved, provider) =
        reserve req.recipient_did body.query_id body.capability now s.windows.provider in
      let r : Reservation = record {
        peer_did = req.recipient_did;
        query_id = body.query_id;
        capability = body.capability;
      } in
      if not reserved
      then deny_send service_bypass req s
      else seal_and_wait (some r) req
          (record s { windows = record s.windows { provider = provider } })

  -- A query that the bypass allows opens the requester window for the answer.
  unfoldable pub begin_query : ℕ → ServiceBody → SendRequest → Sender → Begun × Sender
  begin_query now body req s = seal_and_wait none req (record s {
    windows =
        set_requester_window req.recipient_did body.query_id body.capability body.ttl_ms now
          s.windows;
  })

  unfoldable pub begin_gated : SendRequest → Sender → Begun × Sender
  begin_gated req s =
      let gate =
        check_egress_gates req.recipient_did req.message_type req.data_categories s.gates in
      if not gate.allowed
      then deny_send (egress_gate gate.denied_at) req s
      else seal_and_wait none req s

  unfoldable pub begin_send : ℕ → SendRequest → Sender → Begun × Sender
  unfolding begin_response begin_query begin_gated evaluate_service_bypass
  begin_send now req s =
      if not (is_valid_v1_type req.message_type)
      then (over (denied_result type_enforcement), s)
      else elim (evaluate_service_bypass req) [
        | none ↦ begin_gated req s
        | some not_service ↦ begin_gated req s
        | some (deny reason) ↦ deny_send service_bypass req s
        | some (allow body) ↦
            if req.message_type == msg_type_service_response
            then begin_response now body req s
            else begin_query now body req s
      ]

-- What came of the delivery: the WebSocket took it, the transport answered whether it delivered or
-- buffered it, or it threw.
pub data Delivery : Type 0 where
  via_websocket threw : Delivery
  answered : Bool → Bool → Delivery

unfoldable pub try_enqueue : String → ℕ → Pending → Sender → Bool × Sender
try_enqueue outbox_id now p s =
    let (result, outbox) =
      enqueue_message p.request.recipient_did p.payload outbox_id now s.outbox in
    (elim result [ ok id ↦ true | err e ↦ false ], record s { outbox = outbox })

abbrev pub taken_by_transport : Bool → Bool → Pending → Sender → SendResult × Sender
taken_by_transport delivered buffered p s = (
  record {
    sent = true;
    delivered = delivered;
    buffered = buffered;
    queued = false;
    denied_at = none;
  },
  commit_provider_reservation p.reservation (append_audit "d2d_send" p.request s),
)

-- After a delivery that failed or threw: the reservation is given back and the message is queued.
unfoldable pub queue_for_retry : String → ℕ → Pending → Sender → SendResult × Sender
queue_for_retry outbox_id now p s =
    let (queued, s') = try_enqueue outbox_id now p (release_provider_reservation p.reservation s) in
    (
      record {
        sent = true;
        delivered = false;
        buffered = false;
        queued = queued;
        denied_at = none;
      },
      append_audit "d2d_send_queued" p.request s',
    )

unfoldable pub finish_send : String → ℕ → Delivery → Pending → Sender → SendResult × Sender
unfolding queue_for_retry
finish_send outbox_id now via_websocket p s = taken_by_transport true false p s
finish_send outbox_id now threw p s = queue_for_retry outbox_id now p s
finish_send outbox_id now (answered delivered buffered) p s =
    if delivered || buffered
    then taken_by_transport delivered buffered p s
    else queue_for_retry outbox_id now p (append_audit "d2d_send" p.request s)
