-- ===== src/D2d/Outgoing.antt =====
-- packages/core/src/d2d/send.ts: what leaves, and what the caller is told of it.
use dina_mobile.Prelude.{
  Result, ok, Result-cases, ◌≤◌, ℕ, String, Bool, true, false, Option, some, List, ◌≡◌, refl, sym,
  subst, arith, ◌==◌, eq_iff, if◌then◌else◌, Bool-cases, Option-cases, inl, inr, leb,
}
use dina_mobile.JsMap
use dina_mobile.JsMap.{JsMap}
use dina_mobile.D2d.Families.{is_valid_v1_type}
use dina_mobile.D2d.Gates.{check_egress_gates}
use dina_mobile.D2d.Send.{
  SendRequest, SendResult, Sender, Pending, Begun, over, waiting, Delivery, evaluate_service_bypass,
  begin_response, begin_query, begin_gated, begin_send,
}
use dina_mobile.D2d.Settling.{was_delivered, was_buffered, was_taken}
use dina_mobile.Service.Bodies.{
  Json, ServiceBody, BodyError, validate_service_query_body, validate_service_response_body,
}
use dina_mobile.Service.Reserve.{reserve-live}
use dina_mobile.Service.QueryWindow.{reserve, WindowEntry, window_key}
use dina_mobile.Service.Bypass.{
  ServiceBypassDecision, not_service, allow, deny, evaluate_service_egress_bypass, parse_body,
  msg_type_service_query, msg_type_service_response,
}
use dina_mobile.Transport.Outbox.{Outbox, enqueued, max_queue_size}

module _ (parse : String → Option Json) (seal : SendRequest → Option (List ℕ)) where
  -- Why a message may leave: the gates let it pass, it asks a public service, or it answers a query
  -- whose window is live and not reserved.
  pub data MayLeave (now : ℕ) (req : SendRequest) (s : Sender) : Type 0 where
    gates_pass :
        (check_egress_gates req.recipient_did req.message_type req.data_categories s.gates).allowed
          ≡ true
        → MayLeave now req s
    asks_service :
        (json : Json) (body : ServiceBody) (resolver : String → String → Bool)
        → req.message_type ≡ msg_type_service_query
        → parse req.body ≡ some json
        → validate_service_query_body json ≡ ok body
        → req.public_service_resolver ≡ some resolver
        → resolver req.recipient_did body.capability ≡ true
        → MayLeave now req s
    answers_query :
        (json : Json) (body : ServiceBody) (entry : WindowEntry)
        → req.message_type ≡ msg_type_service_response
        → parse req.body ≡ some json
        → validate_service_response_body json ≡ ok body
        → JsMap.get (window_key req.recipient_did body.query_id body.capability) s.windows.provider
          ≡ some entry
        → entry.reserved ≡ false
        → now ≤ entry.expires_at
        → MayLeave now req s

  abbrev IsWaiting : Begun → Type 0
  IsWaiting (over r) = ⊥
  IsWaiting (waiting p) = Unit

  gated_leaves :
      (now : ℕ) (req : SendRequest) (s : Sender)
      → IsWaiting (begin_gated parse seal req s).0
      → MayLeave now req s
  unfolding begin_gated
  gated_leaves now req s h =
      elim (Bool-cases
        (check_egress_gates req.recipient_did req.message_type req.data_categories
          s.gates).allowed) [ inl t ↦ gates_pass t | inr f ↦ absurd (ground (arith, f)) ]

  parsed_inv :
      (validate : Json → Result BodyError ServiceBody) (text : String) (body : ServiceBody)
      → parse_body parse validate text ≡ some body
      → (json : Json) × (parse text ≡ some json) × (validate json ≡ ok body)
  unfolding parse_body
  parsed_inv validate text body h = elim (Option-cases (parse text)) [
    | inl gone ↦ absurd (ground arith)
    | inr (json, read) ↦ elim (Result-cases (validate json)) [
      | inl (b, valid) ↦ (json, read, ground arith)
      | inr (e, refused) ↦ absurd (ground arith)
    ]
  ]

  -- The body of an allowed response is the one that the request carries.
  response_allowed :
      (req : SendRequest) (body : ServiceBody)
      → evaluate_service_bypass parse seal req ≡ some (allow body)
      → req.message_type ≡ msg_type_service_response
      → parse_body parse validate_service_response_body req.body ≡ some body
  unfolding evaluate_service_bypass evaluate_service_egress_bypass
  response_allowed req body h kind =
      let no_query : (req.message_type == msg_type_service_query) ≡ false = rw kind refl in
      let answer : (req.message_type == msg_type_service_response) ≡ true = rw kind refl in
      ground (
        arith,
        no_query,
        answer,
        Option-cases (parse_body parse validate_service_response_body req.body),
      )

  response_leaves :
      (now : ℕ) (body : ServiceBody) (req : SendRequest) (s : Sender)
      → evaluate_service_bypass parse seal req ≡ some (allow body)
      → req.message_type ≡ msg_type_service_response
      → IsWaiting (begin_response parse seal now body req s).0
      → MayLeave now req s
  unfolding begin_response
  response_leaves now body req s e kind h =
      elim (Bool-cases
        (reserve req.recipient_did body.query_id body.capability now s.windows.provider).0) [
          | inl t ↦
              let (json, read, valid) =
                parsed_inv validate_service_response_body req.body body
                  (response_allowed req body e kind) in
              let (entry, found, free, live) =
                reserve-live req.recipient_did body.query_id body.capability now s.windows.provider
                  t in
              answers_query json body entry kind read valid found free live
          | inr f ↦ absurd (ground (arith, f))
        ]

  -- An allowed query has a body, and a resolver that knows the recipient for its capability.
  query_allowed :
      (req : SendRequest) (body : ServiceBody)
      → evaluate_service_bypass parse seal req ≡ some (allow body)
      → (req.message_type == msg_type_service_response) ≡ false
      → (req.message_type ≡ msg_type_service_query)
        × (parse_body parse validate_service_query_body req.body ≡ some body)
        × ((resolver : String → String → Bool) × (req.public_service_resolver ≡ some resolver)
            × (resolver req.recipient_did body.capability ≡ true))
  unfolding evaluate_service_bypass evaluate_service_egress_bypass
  query_allowed req body h other = elim (Bool-cases (req.message_type == msg_type_service_query)) [
    | inr f ↦ absurd (ground arith)
    | inl t ↦ elim (Option-cases req.public_service_resolver) [
      | inl gone ↦ absurd (ground arith)
      | inr (resolver, given) ↦
          let read = Option-cases (parse_body parse validate_service_query_body req.body) in
          (
            (eq_iff req.message_type msg_type_service_query).0 t,
            ground (arith, read),
            (resolver, given, ground (arith, read)),
          )
    ]
  ]

  allowed_leaves :
      (now : ℕ) (body : ServiceBody) (req : SendRequest) (s : Sender)
      → evaluate_service_bypass parse seal req ≡ some (allow body)
      → IsWaiting
          (if req.message_type == msg_type_service_response
            then begin_response parse seal now body req s
            else begin_query parse seal now body req s).0
      → MayLeave now req s
  allowed_leaves now body req s e h =
      elim (Bool-cases (req.message_type == msg_type_service_response)) [
        | inl t ↦
            response_leaves now body req s e
              ((eq_iff req.message_type msg_type_service_response).0 t) (ground arith)
        | inr f ↦
            let (query, read, (resolver, given, known)) = query_allowed req body e f in
            let (json, parsed, valid) = parsed_inv validate_service_query_body req.body body read in
            asks_service json body resolver query parsed valid given known
      ]

  decided_leaves :
      (now : ℕ) (d : ServiceBypassDecision) (req : SendRequest) (s : Sender)
      → evaluate_service_bypass parse seal req ≡ some d
      → is_valid_v1_type req.message_type ≡ true
      → IsWaiting (begin_send parse seal now req s).0
      → MayLeave now req s
  unfolding begin_send
  decided_leaves now not_service req s e v h = gated_leaves now req s (ground arith)
  decided_leaves now (deny reason) req s e v h = absurd (ground arith)
  decided_leaves now (allow body) req s e v h = allowed_leaves now body req s e (ground arith)

  begin_send-leaves :
      (now : ℕ) (req : SendRequest) (s : Sender)
      → IsWaiting (begin_send parse seal now req s).0
      → (is_valid_v1_type req.message_type ≡ true) × MayLeave now req s
  unfolding begin_send
  begin_send-leaves now req s h = elim (Bool-cases (is_valid_v1_type req.message_type)) [
    | inr bad ↦ absurd (ground arith)
    | inl good ↦ (
      good,
      elim (Option-cases (evaluate_service_bypass parse seal req)) [
        | inl gone ↦ gated_leaves now req s (ground arith)
        | inr (d, found) ↦ decided_leaves now d req s found good h
      ],
    )
  ]

  -- A message that goes on to its delivery is of one of the nine types; and it passes the gates, or
  -- its body reads as a valid query, to a public service that has the capability of that body, or as
  -- a valid response whose provider window, for the recipient and the query and capability of that
  -- body, is there, not reserved and not expired.
  pub begin_send-MayLeave :
      (now : ℕ) (req : SendRequest) (s s' : Sender) (p : Pending)
      → begin_send parse seal now req s ≡ (waiting p, s')
      → (is_valid_v1_type req.message_type ≡ true) × MayLeave now req s
  begin_send-MayLeave now req s s' p h =
      begin_send-leaves now req s (subst (λ (r : Begun × Sender). IsWaiting r.0) (sym h) tt)

-- What has happened to the message, by whether the transport took it and whether the result says
-- that it is queued.
abbrev pub Fate : String → Pending → Outbox → Outbox → Bool → Bool → Type 0
Fate outbox_id p o o' true true = ⊥
Fate outbox_id p o o' true false = o' ≡ o
Fate outbox_id p o o' false true =
    (now : ℕ) × (JsMap.get outbox_id o'
      ≡ some (enqueued outbox_id p.request.recipient_did p.payload now))
Fate outbox_id p o o' false false = (o' ≡ o) × (leb max_queue_size (JsMap.size o) ≡ true)

abbrev pub IsHonest : String → Delivery → Pending → Sender → SendResult × Sender → Type 0
IsHonest outbox_id outcome p s r =
    (r.0.delivered ≡ was_delivered outcome)
    × (r.0.buffered ≡ was_buffered outcome)
    × Fate outbox_id p s.outbox r.1.outbox (was_taken outcome) r.0.queued
