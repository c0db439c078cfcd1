-- ===== src/D2d/Receive.antt =====
-- packages/core/src/d2d/receive_pipeline.ts and receive.ts: what happens to a payload that arrives,
-- with the replay cache of packages/core/src/transport/adversarial.ts. Opening the sealed box and
-- checking the signature are arguments. `now` is in milliseconds and the id of a staged item comes
-- in as an argument. The audit log is the list of its lines, newest first; a sender is not blank. No
-- workflow service is wired, and the configuration is that of the service configuration's state.
use Prim.Native.String.{◌++◌ as ◌+++◌}
use dina_mobile.Prelude.{
  ℕ, ◌/◌, String, Bool, true, false, not, ◌&&◌, ◌||◌, Option, none, some, List, [], ◌∷◌, ◌==◌,
  if◌then◌else◌, or_default,
}
use dina_mobile.JsMap
use dina_mobile.JsMap.{JsMap}
use dina_mobile.JsSet
use dina_mobile.D2d.Families.{
  is_valid_v1_type, message_too_large, should_store, always_passes, map_to_vault_item_type,
}
use dina_mobile.D2d.Gates.{GateState, check_scenario_gate}
use dina_mobile.D2d.Quarantine.{Quarantine, quarantine_message}
use dina_mobile.Service.QueryWindow.{Windows, set_provider_window, check_and_consume}
use dina_mobile.Service.Bodies.{Json, ServiceBody}
use dina_mobile.Service.Config.{ConfigState, is_capability_configured}
use dina_mobile.Service.Bypass.{
  ServiceBypassDecision, not_service, allow, deny, msg_type_service_query,
  msg_type_service_response, evaluate_service_ingress_bypass,
}
use dina_mobile.Staging.Inbox.{Inbox, IngestInput, ingest}

-- `body_size` is the number of bytes of the body.
pub record DinaMessage : Type 0 where
  pub id : String
  pub message_type : String
  pub from : String
  pub to : String
  pub body : String
  pub body_size : ℕ

pub record AuditLine : Type 0 where
  pub actor : String
  pub action : String
  pub resource : String

pub record Node : Type 0 where
  pub replay_cache : JsMap ℕ
  pub gates : GateState
  pub windows : Windows
  pub config : ConfigState
  pub staging : Inbox
  pub quarantine : Quarantine
  pub audit : List AuditLine

pub data ReceiveAction : Type 0 where
  staged quarantined dropped ephemeral bypassed : ReceiveAction

pub record ReceiveResult : Type 0 where
  pub action : ReceiveAction
  pub signature_valid : Bool
  pub staging_id : Option String
  pub quarantine_id : Option String
  pub bypassed_body : Option ServiceBody

unfoldable pub append_audit : String → DinaMessage → Node → Node
append_audit action m s = record s {
  audit = record { actor = m.from; action = action; resource = m.to } ∷ s.audit;
}

abbrev pub plain_result : ReceiveAction → Bool → ReceiveResult
plain_result action valid = record {
  action = action;
  signature_valid = valid;
  staging_id = none;
  quarantine_id = none;
  bypassed_body = none;
}

unfoldable pub is_replayed_message : String → Node → Bool
is_replayed_message key s = JsMap.has key s.replay_cache

unfoldable pub record_message_id : String → ℕ → Node → Node
record_message_id key now s = record s { replay_cache = JsMap.set key (now / 1000) s.replay_cache }

unfoldable pub replay_key : DinaMessage → String
replay_key m = m.from +++ ("|" +++ m.id)

unfoldable pub contact_trust_levels : List String
contact_trust_levels = "verified" ∷ "trusted" ∷ "contact_ring1" ∷ "contact_ring2" ∷ "self" ∷ []

unfoldable pub is_contact_level : String → Bool
unfolding contact_trust_levels JsSet.has
is_contact_level sender_trust = JsSet.has sender_trust contact_trust_levels

-- An audit line and a drop of a message with a valid signature.
abbrev pub drop_with : String → DinaMessage → Node → ReceiveResult × Node
drop_with action m s = (plain_result dropped true, append_audit action m s)

unfoldable pub staged_input : DinaMessage → IngestInput
staged_input m = record {
  source = "d2d";
  source_id = m.id;
  producer_id = some m.from;
  payload = some (
      ("type", or_default (map_to_vault_item_type m.message_type) m.message_type)
      ∷ ("message_type", m.message_type)
      ∷ ("sender_did", m.from)
      ∷ ("body", m.body)
      ∷ []);
  expires_at = none;
}

-- `hash` is the one of the staging inbox, in which `staging_id` is the new id and `now` in seconds.
module _ (hash : JsMap String → String) where
  -- The audit line is that of the pipeline, which is written after the staging.
  unfoldable pub stage_message : String → ℕ → DinaMessage → Node → ReceiveResult × Node
  unfolding staged_input
  stage_message staging_id now m s =
      let ((id, duplicate), inbox) =
        ingest hash (staged_input m) staging_id (now / 1000) s.staging in
      (
        record (plain_result staged true) { staging_id = some id },
        append_audit "d2d_recv_staged" m (record s { staging = inbox }),
      )

  unfoldable pub quarantine_and_audit : ℕ → DinaMessage → Node → ReceiveResult × Node
  quarantine_and_audit now m s =
      let (q, quarantine) = quarantine_message m.from m.message_type m.body now s.quarantine in
      (
        record (plain_result quarantined true) { quarantine_id = some q.id },
        append_audit "d2d_recv_quarantined" m (record s { quarantine = quarantine }),
      )

  unfoldable pub receive_and_stage :
      String → Bool → String → ℕ → DinaMessage → Node → ReceiveResult × Node
  unfolding stage_message quarantine_and_audit
  receive_and_stage sender_trust is_contact staging_id now m s =
      if not (should_store m.message_type)
      then (plain_result ephemeral true, append_audit "d2d_recv_ephemeral" m s)
      else if always_passes m.message_type
      then stage_message staging_id now m s
      else if sender_trust == "blocked"
      then (plain_result dropped true, append_audit "d2d_recv_dropped" m s)
      else if not is_contact
      then quarantine_and_audit now m s
      else stage_message staging_id now m s

abbrev pub accept_service : DinaMessage → ServiceBody → Node → ReceiveResult × Node
accept_service m body s = (
  record (plain_result bypassed true) { bypassed_body = some body },
  append_audit "d2d_recv_service_accepted" m s,
)

-- An accepted query opens the provider window for the answer.
unfoldable pub accept_query : ℕ → DinaMessage → ServiceBody → Node → ReceiveResult × Node
accept_query now m body s = accept_service m body (record s {
  windows = set_provider_window m.from body.query_id body.capability body.ttl_ms now s.windows;
})

-- An accepted response consumes the requester window.
unfoldable pub accept_response : ℕ → DinaMessage → ServiceBody → Node → ReceiveResult × Node
accept_response now m body s =
    let (consumed, requester) =
      check_and_consume m.from body.query_id body.capability now s.windows.requester in
    let s' : Node = record s { windows = record s.windows { requester = requester } } in
    if not consumed then drop_with "d2d_recv_service_denied" m s' else accept_service m body s'

unfoldable pub apply_service_ingress_decision :
    ℕ → DinaMessage → ServiceBypassDecision → Node → ReceiveResult × Node
unfolding accept_query accept_response
apply_service_ingress_decision now m (deny reason) s = drop_with "d2d_recv_service_denied" m s
apply_service_ingress_decision now m not_service s = (plain_result dropped true, s)
apply_service_ingress_decision now m (allow body) s =
    if m.message_type == msg_type_service_query
    then accept_query now m body s
    else accept_response now m body s

unfoldable pub is_service_type : String → Bool
is_service_type t = t == msg_type_service_query || t == msg_type_service_response

module _ (hash : JsMap String → String) (parse : String → Option Json) where
  unfoldable pub receive_service : ℕ → DinaMessage → Node → ReceiveResult × Node
  receive_service now m s =
      apply_service_ingress_decision now m
        (evaluate_service_ingress_bypass parse m.message_type m.from m.body
          (λ capability. is_capability_configured capability s.config) now s.windows.requester)
        s

  unfoldable pub receive_from_sender :
      String → String → ℕ → DinaMessage → Node → ReceiveResult × Node
  unfolding is_contact_level
  receive_from_sender sender_trust staging_id now m s =
      let is_contact = is_contact_level sender_trust in
      if is_contact
        && not (always_passes m.message_type)
        && not (check_scenario_gate m.from m.message_type s.gates)
      then drop_with "d2d_recv_scenario_denied" m s
      else receive_and_stage hash sender_trust is_contact staging_id now m s

  -- What follows the replay check.
  unfoldable pub receive_new : String → String → ℕ → DinaMessage → Node → ReceiveResult × Node
  unfolding is_service_type
  receive_new sender_trust staging_id now m s =
      if not (is_valid_v1_type m.message_type)
      then drop_with "d2d_recv_type_rejected" m s
      else if message_too_large m.body_size
      then drop_with "d2d_recv_body_oversized" m s
      else if sender_trust == "blocked"
      then drop_with "d2d_recv_blocked" m s
      else if is_service_type m.message_type
      then receive_service now m s
      else receive_from_sender sender_trust staging_id now m s

  -- What follows the signature check.
  unfoldable pub receive_verified : String → String → ℕ → DinaMessage → Node → ReceiveResult × Node
  receive_verified sender_trust staging_id now m s =
      if is_replayed_message (replay_key m) s
      then drop_with "d2d_recv_replay" m s
      else receive_new sender_trust staging_id now m (record_message_id (replay_key m) now s)

-- `unseal` opens the sealed box, with none where it throws, and gives the message with its
-- signature; `verify` is the check of the signature against the sender's keys.
module _ {Payload : Type 0} (unseal : Payload → Option (DinaMessage × String))
    (verify : DinaMessage → String → Bool) (hash : JsMap String → String)
    (parse : String → Option Json) where
  unfoldable pub receive_d2d : Payload → String → String → ℕ → Node → ReceiveResult × Node
  receive_d2d payload sender_trust staging_id now s = elim (unseal payload) [
    | none ↦ (plain_result dropped false, s)
    | some (m, signature_hex) ↦
        if not (verify m signature_hex)
        then (plain_result dropped false, append_audit "d2d_recv_bad_sig" m s)
        else receive_verified hash parse sender_trust staging_id now m s
  ]
