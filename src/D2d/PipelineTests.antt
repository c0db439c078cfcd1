-- ===== src/D2d/PipelineTests.antt =====
-- Tests of packages/core/src/d2d: the quarantine and the two pipelines on concrete messages.
use dina_mobile.D2d.Gates.{check_scenario_gate}
use dina_mobile.Prelude.{
  String, Bool, true, Option, none, some, [], ◌∷◌, ◌≡◌, ◌⊎◌, refl, ◌==◌, if◌then◌else◌,
}
use dina_mobile.JsMap
use dina_mobile.JsMap.{JsMap, kept}
use dina_mobile.D2d.Families.{is_valid_v1_type, message_too_large, should_store, always_passes}
use dina_mobile.D2d.Gates.{clear_gates_state}
use dina_mobile.D2d.Quarantine.{Quarantine, reset_quarantine_state}
use dina_mobile.D2d.QuarantineIds.{op_quarantine, quarantine_run}
use dina_mobile.D2d.Receive as R
use dina_mobile.D2d.Receive.{
  Node, DinaMessage, receive_d2d, staged, dropped, plain_result, replay_key,
}
use dina_mobile.D2d.Replay.{receive_d2d-replayed}
use dina_mobile.D2d.Admission.{IsAdmitted, receive_d2d-IsAdmitted}
use dina_mobile.D2d.Effects.{Leaves, receive_d2d-effects}
use dina_mobile.Service.QueryWindow.{reset_service_windows}
use dina_mobile.Service.Bodies.{Json}
use dina_mobile.Staging.Inbox.{empty_inbox}

abbrev two_waiting : Quarantine
two_waiting =
    quarantine_run
      (op_quarantine "did:a" "social.update" "hi" 5
        ∷ op_quarantine "did:b" "social.update" "yo" 6
        ∷ [])
      reset_quarantine_state

abbrev message : DinaMessage
message = record {
  id = "m1";
  message_type = "social.update";
  from = "did:a";
  to = "did:me";
  body = "{}";
  body_size = 2;
}

abbrev node : Node
node = record {
  replay_cache = [];
  gates = clear_gates_state;
  windows = reset_service_windows;
  config = record { current = none; notified = 0 };
  staging = empty_inbox;
  quarantine = reset_quarantine_state;
  audit = [];
}

-- A box that opens to the message, and a check that takes one signature.
abbrev unseal : String → Option (DinaMessage × String)
unseal payload = if payload == "box" then some (message, "sig") else none

abbrev verify : DinaMessage → String → Bool
verify m signature_hex = signature_hex == "sig"

abbrev no_hash : JsMap String → String
no_hash m = ""

abbrev no_parse : String → Option Json
no_parse text = none

receive_trusted :
    (receive_d2d unseal verify no_hash no_parse "box" "trusted" "s1" 7000 node).0.action ≡ staged
unfolding receive_d2d R.receive_verified R.is_replayed_message JsMap.has R.receive_new
    is_valid_v1_type message_too_large R.receive_from_sender always_passes check_scenario_gate
    R.record_message_id clear_gates_state R.receive_and_stage should_store
receive_trusted = refl

receive_d2d-replayed_example :
    let s' = (receive_d2d unseal verify no_hash no_parse "box" "unknown" "s1" 7000 node).1 in
    receive_d2d unseal verify no_hash no_parse "box" "trusted" "s2" 8000 s'
    ≡ (plain_result dropped true, R.append_audit "d2d_recv_replay" message s')
receive_d2d-replayed_example =
    receive_d2d-replayed unseal verify no_hash no_parse "box" "box" message message "sig" "sig"
      "unknown" "trusted" "s1" "s2" 7000 8000 node refl refl refl refl refl

receive_d2d-IsAdmitted_example :
    (m : DinaMessage) × (sig : String) × (unseal "box" ≡ some (m, sig))
    × (verify m sig ≡ true)
    × IsAdmitted "trusted" m node
receive_d2d-IsAdmitted_example =
    receive_d2d-IsAdmitted unseal verify no_hash no_parse "box" "trusted" "s1" 7000 node
      receive_trusted

receive_d2d-effects_example :
    let (result, s') = receive_d2d unseal verify no_hash no_parse "box" "unknown" "s1" 7000 node in
    Leaves result.action node s'
    × (((m : DinaMessage) × (sig : String) × (unseal "box" ≡ some (m, sig)) × (verify m sig ≡ true))
        ⊎ ((result.action ≡ dropped) × (s' ≡ record node { audit = s'.audit })))
receive_d2d-effects_example =
    receive_d2d-effects unseal verify no_hash no_parse "box" "unknown" "s1" 7000 node
