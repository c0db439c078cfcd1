-- ===== src/Service/Bypass.antt =====
-- packages/core/src/service/bypass.ts: whether a `service.*` message passes without the contact gate.
-- `parse` is `JSON.parse`, with none where it throws.
use dina_mobile.Prelude.{
  ℕ, String, Bool, not, Option, none, some, ◌==◌, if◌then◌else◌, Result, ok, err,
}
use dina_mobile.Service.Bodies.{
  Json, BodyError, ServiceBody, validate_service_query_body, validate_service_response_body,
}
use dina_mobile.Service.QueryWindow.{QueryWindow, peek}

pub data BypassDenyReason : Type 0 where
  not_public_service not_configured no_window body_invalid : BypassDenyReason

-- The details, texts for a person, are not modelled.
pub data ServiceBypassDecision : Type 0 where
  not_service : ServiceBypassDecision
  allow : ServiceBody → ServiceBypassDecision
  deny : BypassDenyReason → ServiceBypassDecision

abbrev pub msg_type_service_query : String
msg_type_service_query = "service.query"

abbrev pub msg_type_service_response : String
msg_type_service_response = "service.response"

module _ (parse : String → Option Json) where
  unfoldable pub parse_body : (Json → Result BodyError ServiceBody) → String → Option ServiceBody
  parse_body validate body_json = elim (parse body_json) [
    | none ↦ none
    | some parsed ↦ elim (validate parsed) [ ok body ↦ some body | err e ↦ none ]
  ]

  -- `resolver` is `isPublicService` of the AppView, where one is given.
  unfoldable pub evaluate_service_egress_bypass :
      String → String → String → Option (String → String → Bool) → ServiceBypassDecision
  unfolding parse_body
  evaluate_service_egress_bypass message_type recipient_did body_json resolver =
      if message_type == msg_type_service_query
      then elim (parse_body validate_service_query_body body_json) [
        | none ↦ deny body_invalid
        | some body ↦ elim resolver [
          | none ↦ allow body
          | some is_public_service ↦
              if not (is_public_service recipient_did body.capability)
              then deny not_public_service
              else allow body
        ]
      ]
      else if message_type == msg_type_service_response
      then elim (parse_body validate_service_response_body body_json) [
        | none ↦ deny body_invalid
        | some body ↦ allow body
      ]
      else not_service

  -- Both the configuration reader and the requester window are given, as by the only caller.
  unfoldable pub evaluate_service_ingress_bypass :
      String → String → String → (String → Bool) → ℕ → QueryWindow → ServiceBypassDecision
  unfolding parse_body
  evaluate_service_ingress_bypass message_type from_did body_json is_configured now requester =
      if message_type == msg_type_service_query
      then elim (parse_body validate_service_query_body body_json) [
        | none ↦ deny body_invalid
        | some body ↦
            if not (is_configured body.capability) then deny not_configured else allow body
      ]
      else if message_type == msg_type_service_response
      then elim (parse_body validate_service_response_body body_json) [
        | none ↦ deny body_invalid
        | some body ↦
            if not (peek from_did body.query_id body.capability now requester)
            then deny no_window
            else allow body
      ]
      else not_service
