-- ===== src/D2d/Answers.antt =====
-- packages/core/src/d2d/send.ts with the provider window: how often a query is answered.
use dina_mobile.Prelude.{
  ℕ, String, Bool, true, false, Option, none, some, List, ◌≡◌, ◌⊎◌, ap, sym, ◌∙◌, arith, eq_iff,
  eq_refl, if◌then◌else◌, Bool-cases, Option-cases, inl, inr,
}
use dina_mobile.JsMap
use dina_mobile.JsMap.{JsMap}
use dina_mobile.D2d.Families.{is_valid_v1_type}
use dina_mobile.D2d.Send.{
  SendRequest, Sender, Pending, waiting, Delivery, deny_send, service_bypass,
  evaluate_service_bypass, seal_and_wait, begin_response, begin_send, finish_send,
}
use dina_mobile.Service.Bodies.{Json, ServiceBody}
use dina_mobile.Service.QueryWindow.{QueryWindow, window_key, reserve, commit, release}
use dina_mobile.Service.Reserve.{reserve_lem, reserve-lookup, reserve-missing}
use dina_mobile.Service.Bypass.{allow, msg_type_service_response}
use dina_mobile.D2d.Settling.{was_taken, finish_taken, finish_untaken}

-- The answer that waits with its reservation.
abbrev pub waiting_answer : SendRequest → ServiceBody → List ℕ → Pending
waiting_answer req body payload = record {
  request = req;
  payload = payload;
  reservation = some (record {
    peer_did = req.recipient_did;
    query_id = body.query_id;
    capability = body.capability;
  });
}

module _ (parse : String → Option Json) (seal : SendRequest → Option (List ℕ)) where
  -- The request is a response whose body the bypass allows.
  pub record IsAnswer (req : SendRequest) (body : ServiceBody) : Type 0 where
    pub kind : req.message_type ≡ msg_type_service_response
    pub allowed : evaluate_service_bypass parse seal req ≡ some (allow body)

  valid_answer :
      (req : SendRequest) (body : ServiceBody)
      → IsAnswer req body
      → is_valid_v1_type req.message_type ≡ true
  unfolding is_valid_v1_type
  valid_answer req body h = ap is_valid_v1_type h.kind

  begin_send-answer :
      (now : ℕ) (req : SendRequest) (body : ServiceBody) (s : Sender)
      → IsAnswer req body
      → begin_send parse seal now req s ≡ begin_response parse seal now body req s
  unfolding begin_send
  begin_send-answer now req body s h = ground (
    arith,
    valid_answer req body h,
    h.allowed,
    (eq_iff req.message_type msg_type_service_response).1 h.kind,
  )

  begin_send-refused :
      (now : ℕ) (req : SendRequest) (body : ServiceBody) (s : Sender)
      → IsAnswer req body
      → (reserve req.recipient_did body.query_id body.capability now s.windows.provider).0 ≡ false
      → begin_send parse seal now req s ≡ deny_send service_bypass req s
  unfolding begin_response
  begin_send-refused now req body s h r = begin_send-answer now req body s h ∙ ground arith

  -- What is known of an answer that waits for its delivery.
  record IsHeld (now : ℕ) (req : SendRequest) (body : ServiceBody) (s s' : Sender) (p : Pending)
      : Type 0 where
    reserved :
        (reserve req.recipient_did body.query_id body.capability now s.windows.provider).0 ≡ true
    stored :
        s'.windows.provider
        ≡ (reserve req.recipient_did body.query_id body.capability now s.windows.provider).1
    reservation :
        p.reservation
        ≡ some (record {
          peer_did = req.recipient_did;
          query_id = body.query_id;
          capability = body.capability;
        })

  begin_send-IsHeld :
      (now : ℕ) (req : SendRequest) (body : ServiceBody) (s s' : Sender) (p : Pending)
      → IsAnswer req body
      → begin_send parse seal now req s ≡ (waiting p, s')
      → IsHeld now req body s s' p
  unfolding begin_response seal_and_wait
  begin_send-IsHeld now req body s s' p h e =
      let e' = sym (begin_send-answer now req body s h) ∙ e in
      elim (Bool-cases
        (reserve req.recipient_did body.query_id body.capability now s.windows.provider).0) [
          | inr f ↦ absurd (ground arith)
          | inl t ↦ elim (Option-cases (seal req)) [
            | inl gone ↦ absurd (ground arith)
            | inr (payload, sealed) ↦ record {
              reserved = t;
              stored = ground arith;
              reservation = ground arith;
            }
          ]
        ]

  -- Two responses to one query.
  pub record SameQuery (req req' : SendRequest) (body body' : ServiceBody) : Type 0 where
    pub peer : req'.recipient_did ≡ req.recipient_did
    pub query : body'.query_id ≡ body.query_id
    pub capability : body'.capability ≡ body.capability

  reserve_same :
      (req req' : SendRequest) (body body' : ServiceBody) (now : ℕ) (w : QueryWindow)
      → SameQuery req req' body body'
      → (reserve req'.recipient_did body'.query_id body'.capability now w).0
        ≡ (reserve req.recipient_did body.query_id body.capability now w).0
  reserve_same req req' body body' now w same =
      ap (λ p. (reserve p body'.query_id body'.capability now w).0) same.peer
      ∙ ap (λ q. (reserve req.recipient_did q body'.capability now w).0) same.query
      ∙ ap (λ c. (reserve req.recipient_did body.query_id c now w).0) same.capability

  -- While an answer waits for its delivery, and once the transport has delivered or buffered it,
  -- another answer to the same query is refused at any time, nothing else being done in between: it
  -- is denied by the service bypass, and only the audit log of the sender changes.
  pub begin_send-answered_once :
      (now later at : ℕ) (req req' : SendRequest) (body body' : ServiceBody) (s s' : Sender)
      (p : Pending) (outbox_id : String) (outcome : Delivery)
      → IsAnswer req body
      → IsAnswer req' body'
      → SameQuery req req' body body'
      → begin_send parse seal now req s ≡ (waiting p, s')
      → let s'' = (finish_send outbox_id at outcome p s').1 in
        (begin_send parse seal later req' s' ≡ deny_send service_bypass req' s')
        × ((was_taken outcome ≡ false)
            ⊎ (begin_send parse seal later req' s'' ≡ deny_send service_bypass req' s''))
  begin_send-answered_once now later at req req' body body' s s' p outbox_id outcome h h' same e =
      let held = begin_send-IsHeld now req body s s' p h e in
      let (twice, back, gone) =
        reserve_lem req.recipient_did body.query_id body.capability now s.windows.provider
          held.reserved in
      let refused =
        λ (x : Sender)
            (r : (reserve req.recipient_did body.query_id body.capability later
                x.windows.provider).0
              ≡ false).
          begin_send-refused later req' body' x h'
            (reserve_same req req' body body' later x.windows.provider same ∙ r) in
      let key = window_key req.recipient_did body.query_id body.capability in
      let s'' = (finish_send outbox_id at outcome p s').1 in
      (
        refused s' (
            ap (λ w. (reserve req.recipient_did body.query_id body.capability later w).0)
              held.stored
            ∙ twice later),
        elim (Bool-cases (was_taken outcome)) [
          | inr untaken ↦ inl untaken
          | inl taken ↦ inr (
              refused s'' (
                reserve-missing req.recipient_did body.query_id body.capability later
                  s''.windows.provider
                  (ap (JsMap.get key) (
                      finish_taken outbox_id at outcome p _ s' held.reservation taken
                      ∙ ap (commit req.recipient_did body.query_id body.capability) held.stored)
                    ∙ gone key
                    ∙ ap (λ (b : Bool). if b then none else JsMap.get key s.windows.provider)
                        (eq_refl key))))
        ],
      )

  -- Where the transport has neither delivered nor buffered an answer, every provider window is as
  -- it was before the send, also where the message was queued in the outbox. So another answer to
  -- the query, with nothing else done in between, that can be sealed, at a time when the window
  -- could have been reserved before the first send, reserves it and goes on to its delivery.
  pub begin_send-after_queue :
      (now later at : ℕ) (req req' : SendRequest) (body body' : ServiceBody) (s s' : Sender)
      (p : Pending) (outbox_id : String) (outcome : Delivery) (payload : List ℕ)
      → IsAnswer req body
      → IsAnswer req' body'
      → SameQuery req req' body body'
      → begin_send parse seal now req s ≡ (waiting p, s')
      → seal req' ≡ some payload
      → (reserve req.recipient_did body.query_id body.capability later s.windows.provider).0 ≡ true
      → was_taken outcome ≡ false
      → let s'' = (finish_send outbox_id at outcome p s').1 in
        let (reserved, provider) =
          reserve req'.recipient_did body'.query_id body'.capability later s''.windows.provider in
        ((j : String) → JsMap.get j s''.windows.provider ≡ JsMap.get j s.windows.provider)
        × (reserved ≡ true)
        × (begin_send parse seal later req' s'' ≡ (
          waiting (waiting_answer req' body' payload),
          record s'' { windows = record s''.windows { provider = provider } },
        ))
  unfolding begin_response seal_and_wait
  begin_send-after_queue now later at req req' body body' s s' p outbox_id outcome payload h h' same
        e sealed live untaken =
      let held = begin_send-IsHeld now req body s s' p h e in
      let (twice, back, gone) =
        reserve_lem req.recipient_did body.query_id body.capability now s.windows.provider
          held.reserved in
      let s'' = (finish_send outbox_id at outcome p s').1 in
      let w = s''.windows.provider in
      let as_before : (j : String) → JsMap.get j w ≡ JsMap.get j s.windows.provider = λ j.
        ap (JsMap.get j) (
          finish_untaken outbox_id at outcome p _ s' held.reservation untaken
          ∙ ap (release req.recipient_did body.query_id body.capability) held.stored)
        ∙ back j in
      let open_again =
        reserve_same req req' body body' later w same
        ∙ reserve-lookup req.recipient_did body.query_id body.capability later w s.windows.provider
            (as_before (window_key req.recipient_did body.query_id body.capability))
        ∙ live in
      (
        as_before,
        open_again,
        begin_send-answer later req' body' s'' h' ∙ ground (arith, open_again, sealed),
      )
