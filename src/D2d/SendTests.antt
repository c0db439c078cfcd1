-- ===== src/D2d/SendTests.antt =====
-- Tests of packages/core/src/d2d/send.ts on concrete sends.
use dina_mobile.Prelude.{ℕ, String, true, false, Option, none, some, List, [], ◌∷◌, ◌≡◌, ◌⊎◌, refl}
use dina_mobile.JsMap
use dina_mobile.D2d.Families.{is_valid_v1_type}
use dina_mobile.D2d.Gates.{clear_gates_state}
use dina_mobile.D2d.Send.{
  SendRequest, Sender, Pending, waiting, threw, answered, begin_send, seal_and_wait, finish_send,
  deny_send, service_bypass, evaluate_service_bypass,
}
use dina_mobile.D2d.Outgoing.{MayLeave, begin_send-MayLeave}
use dina_mobile.D2d.Answers.{
  IsAnswer, waiting_answer, begin_send-answered_once, begin_send-after_queue,
}
use dina_mobile.D2d.Settling.{was_taken}
use dina_mobile.Service.QueryWindow.{window_key, reserve}
use dina_mobile.Service.Bodies.{Json, object, Value, ServiceBody, validate_service_response_body}
use dina_mobile.Service.Bypass.{evaluate_service_egress_bypass}

-- Every body is read as an answer to one query.
abbrev parse : String → Option Json
parse text = some (
    object (
      ("query_id", Value.text "q1")
      ∷ ("capability", Value.text "eta")
      ∷ ("status", Value.text "success")
      ∷ ("ttl_seconds", Value.number false 60000 false)
      ∷ []))

abbrev seal : SendRequest → Option (List ℕ)
seal req = some (1 ∷ 2 ∷ [])

abbrev answer : SendRequest
answer = record {
  recipient_did = "did:a";
  message_type = "service.response";
  body = "{}";
  sender_did = "did:me";
  data_categories = [];
  public_service_resolver = none;
}

abbrev body : ServiceBody
body = record { query_id = "q1"; capability = "eta"; ttl_ms = 60000 }

abbrev sender : Sender
sender = record {
  gates = clear_gates_state;
  windows = record {
    provider =
        (
          window_key "did:a" "q1" "eta",
          record { capability = "eta"; expires_at = 500; reserved = false },
        )
        ∷ [];
    requester = [];
  };
  outbox = [];
  audit = [];
}

abbrev reserved_sender : Sender
reserved_sender = record sender {
  windows = record {
    provider =
        (
          window_key "did:a" "q1" "eta",
          record { capability = "eta"; expires_at = 500; reserved = true },
        )
        ∷ [];
    requester = [];
  };
}

abbrev pending : Pending
pending = record {
  request = answer;
  payload = 1 ∷ 2 ∷ [];
  reservation = some (record { peer_did = "did:a"; query_id = "q1"; capability = "eta" });
}

begun : begin_send parse seal 400 answer sender ≡ (waiting pending, reserved_sender)
unfolding begin_send is_valid_v1_type evaluate_service_egress_bypass validate_service_response_body
    JsMap.get reserve window_key seal_and_wait JsMap.set
begun = refl

is_answer : IsAnswer parse seal answer body
unfolding evaluate_service_bypass evaluate_service_egress_bypass validate_service_response_body
    JsMap.get
is_answer = record { kind = refl; allowed = refl }

begin_send-MayLeave_example :
    (is_valid_v1_type answer.message_type ≡ true) × MayLeave parse seal 400 answer sender
begin_send-MayLeave_example =
    begin_send-MayLeave parse seal 400 answer sender reserved_sender pending begun

begin_send-answered_once_example :
    let s'' = (finish_send "o1" 401 (answered false true) pending reserved_sender).1 in
    (begin_send parse seal 402 answer reserved_sender
      ≡ deny_send service_bypass answer reserved_sender)
    × ((was_taken (answered false true) ≡ false)
        ⊎ (begin_send parse seal 402 answer s'' ≡ deny_send service_bypass answer s''))
begin_send-answered_once_example =
    begin_send-answered_once parse seal 400 402 401 answer answer body body sender reserved_sender
      pending "o1" (answered false true) is_answer is_answer
      (record { peer = refl; query = refl; capability = refl }) begun

live : (reserve "did:a" "q1" "eta" 402 sender.windows.provider).0 ≡ true
unfolding reserve JsMap.get window_key
live = refl

begin_send-after_queue_example :
    let s'' = (finish_send "o1" 401 threw pending reserved_sender).1 in
    let (reserved, provider) = reserve "did:a" "q1" "eta" 402 s''.windows.provider in
    ((j : String) → JsMap.get j s''.windows.provider ≡ JsMap.get j sender.windows.provider)
    × (reserved ≡ true)
    × (begin_send parse seal 402 answer s'' ≡ (
      waiting (waiting_answer answer body (1 ∷ 2 ∷ [])),
      record s'' { windows = record s''.windows { provider = provider } },
    ))
begin_send-after_queue_example =
    begin_send-after_queue parse seal 400 402 401 answer answer body body sender reserved_sender
      pending "o1" threw (1 ∷ 2 ∷ []) is_answer is_answer
      (record { peer = refl; query = refl; capability = refl }) begun refl live refl
