-- ===== src/D2d/Effects.antt =====
-- packages/core/src/d2d/receive_pipeline.ts: what each outcome changes.
use dina_mobile.Prelude.{
  some, ℕ, String, Bool, true, false, Option, ◌≡◌, ◌⊎◌, refl, ap, arith, if◌then◌else◌, Bool-cases,
  Option-cases, inl, inr,
}
use dina_mobile.JsMap
use dina_mobile.JsMap.{JsMap}
use dina_mobile.Service.QueryWindow.{QueryWindow, window_key, check_and_consume}
use dina_mobile.D2d.Receive.{
  Node, DinaMessage, ReceiveResult, ReceiveAction, staged, quarantined, dropped, ephemeral,
  bypassed, plain_result, append_audit, record_message_id, replay_key, stage_message,
  quarantine_and_audit, receive_and_stage, accept_query, accept_response,
  apply_service_ingress_decision, receive_service, receive_from_sender, receive_new,
  receive_verified, receive_d2d, is_contact_level, drop_with,
}
use dina_mobile.Service.Bodies.{Json, ServiceBody}
use dina_mobile.Service.Bypass.{ServiceBypassDecision, not_service, allow, deny}

-- The parts that an outcome leaves alone, and those that no outcome changes.
abbrev pub Leaves : ReceiveAction → Node → Node → Type 0
Leaves staged s s' =
    (s'.quarantine ≡ s.quarantine)
    × (s'.windows ≡ s.windows)
    × (s'.gates ≡ s.gates)
    × (s'.config ≡ s.config)
Leaves quarantined s s' =
    (s'.staging ≡ s.staging)
    × (s'.windows ≡ s.windows)
    × (s'.gates ≡ s.gates)
    × (s'.config ≡ s.config)
Leaves bypassed s s' =
    (s'.staging ≡ s.staging)
    × (s'.quarantine ≡ s.quarantine)
    × (s'.gates ≡ s.gates)
    × (s'.config ≡ s.config)
Leaves dropped s s' =
    (s'.staging ≡ s.staging)
    × (s'.quarantine ≡ s.quarantine)
    × (s'.windows ≡ s.windows)
    × (s'.gates ≡ s.gates)
    × (s'.config ≡ s.config)
Leaves ephemeral s s' =
    (s'.staging ≡ s.staging)
    × (s'.quarantine ≡ s.quarantine)
    × (s'.windows ≡ s.windows)
    × (s'.gates ≡ s.gates)
    × (s'.config ≡ s.config)

-- What holds of the outcome for a message with a valid signature.
record Effect (s : Node) (r : ReceiveResult × Node) : Type 0 where
  leaves : Leaves r.0.action s r.1
  valid : r.0.signature_valid ≡ true

-- A branch leaves what both of its outcomes leave.
Effect-if :
    (b : Bool) (s : Node) (x y : ReceiveResult × Node)
    → Effect s x
    → Effect s y
    → Effect s (if b then x else y)
Effect-if true s x y hx hy = hx
Effect-if false s x y hx hy = hy

drop-Effect : (action : String) (m : DinaMessage) (s : Node) → Effect s (drop_with action m s)
unfolding append_audit
drop-Effect action m s = record { leaves = (refl, refl, refl, refl, refl); valid = refl }

ephemeral-Effect :
    (action : String) (m : DinaMessage) (s : Node)
    → Effect s (plain_result ephemeral true, append_audit action m s)
unfolding append_audit
ephemeral-Effect action m s = record { leaves = (refl, refl, refl, refl, refl); valid = refl }

-- What is left alone after the message id was recorded is left alone.
Leaves-recorded :
    (action : ReceiveAction) (key : String) (now : ℕ) (s s' : Node)
    → Leaves action (record_message_id key now s) s'
    → Leaves action s s'
unfolding record_message_id
Leaves-recorded staged key now s s' h = h
Leaves-recorded quarantined key now s s' h = h
Leaves-recorded bypassed key now s s' h = h
Leaves-recorded dropped key now s s' h = h
Leaves-recorded ephemeral key now s s' h = h

consume_refused :
    (p q c : String) (now : ℕ) (w : QueryWindow)
    → (check_and_consume p q c now w).0 ≡ false
    → (check_and_consume p q c now w).1 ≡ w
unfolding check_and_consume
consume_refused p q c now w h = elim (Option-cases (JsMap.get (window_key p q c) w)) [
  | inl gone ↦ ground arith
  | inr (entry, found) ↦ ground arith
]

accept_response-Effect :
    (now : ℕ) (m : DinaMessage) (body : ServiceBody) (s : Node)
    → Effect s (accept_response now m body s)
unfolding accept_response append_audit
accept_response-Effect now m body s =
    elim (Bool-cases
      (check_and_consume m.from body.query_id body.capability now s.windows.requester).0) [
        | inl t ↦ rw (t, accept_response) record { leaves = (refl, refl, refl, refl); valid = refl }
        | inr f ↦
            let same =
              consume_refused m.from body.query_id body.capability now s.windows.requester f in
            rw (f, accept_response)
              record {
                leaves = (
                  refl,
                  refl,
                  ap (λ (w : QueryWindow). record s.windows { requester = w }) same,
                  refl,
                  refl,
                );
                valid = refl;
              }
      ]

decision-Effect :
    (now : ℕ) (m : DinaMessage) (d : ServiceBypassDecision) (s : Node)
    → Effect s (apply_service_ingress_decision now m d s)
unfolding apply_service_ingress_decision accept_query append_audit
decision-Effect now m not_service s = record {
  leaves = (refl, refl, refl, refl, refl);
  valid = refl;
}
decision-Effect now m (deny reason) s = record {
  leaves = (refl, refl, refl, refl, refl);
  valid = refl;
}
decision-Effect now m (allow body) s =
    Effect-if _ s (accept_query now m body s) (accept_response now m body s)
      record { leaves = (refl, refl, refl, refl); valid = refl }
      (accept_response-Effect now m body s)

module _ (hash : JsMap String → String) (parse : String → Option Json) where
  receive_and_stage-Effect :
      (trust : String) (is_contact : Bool) (id : String) (now : ℕ) (m : DinaMessage) (s : Node)
      → Effect s (receive_and_stage hash trust is_contact id now m s)
  unfolding receive_and_stage stage_message quarantine_and_audit append_audit
  receive_and_stage-Effect trust is_contact id now m s =
      let stage = stage_message hash id now m s in
      let staging : Effect s stage = record { leaves = (refl, refl, refl, refl); valid = refl } in
      Effect-if _ s _ _ (ephemeral-Effect "d2d_recv_ephemeral" m s) (
        Effect-if _ s stage _ staging (
          Effect-if _ s _ _ (drop-Effect "d2d_recv_dropped" m s) (
            Effect-if _ s (quarantine_and_audit hash now m s) stage
              record { leaves = (refl, refl, refl, refl); valid = refl } staging)))

  receive_from_sender-Effect :
      (trust id : String) (now : ℕ) (m : DinaMessage) (s : Node)
      → Effect s (receive_from_sender hash parse trust id now m s)
  unfolding receive_from_sender
  receive_from_sender-Effect trust id now m s =
      Effect-if _ s _ _ (drop-Effect "d2d_recv_scenario_denied" m s)
        (receive_and_stage-Effect trust (is_contact_level trust) id now m s)

  receive_new-Effect :
      (trust id : String) (now : ℕ) (m : DinaMessage) (s : Node)
      → Effect s (receive_new hash parse trust id now m s)
  unfolding receive_new receive_service
  receive_new-Effect trust id now m s =
      Effect-if _ s _ _ (drop-Effect "d2d_recv_type_rejected" m s) (
        Effect-if _ s _ _ (drop-Effect "d2d_recv_body_oversized" m s) (
          Effect-if _ s _ _ (drop-Effect "d2d_recv_blocked" m s) (
            Effect-if _ s _ (receive_from_sender hash parse trust id now m s)
              (decision-Effect now m _ s) (receive_from_sender-Effect trust id now m s))))

  receive_verified-Effect :
      (trust id : String) (now : ℕ) (m : DinaMessage) (s : Node)
      → Effect s (receive_verified hash parse trust id now m s)
  unfolding receive_verified
  receive_verified-Effect trust id now m s =
      let s' = record_message_id (replay_key m) now s in
      let r = receive_new-Effect trust id now m s' in
      Effect-if _ s _ (receive_new hash parse trust id now m s') (drop-Effect "d2d_recv_replay" m s)
        record { leaves = Leaves-recorded _ (replay_key m) now s _ r.leaves; valid = r.valid }

-- An unverified payload changes the audit log at most.
abbrev Untouched : Node → Node → Type 0
Untouched s s' = s' ≡ record s { audit = s'.audit }

module _ {Payload : Type 0} (unseal : Payload → Option (DinaMessage × String))
    (verify : DinaMessage → String → Bool) (hash : JsMap String → String)
    (parse : String → Option Json) where
  -- Receiving a payload changes the staging inbox only when the outcome is staged, the quarantine
  -- only when it is quarantined, the windows only when it is bypassed, and the gates and the
  -- configuration never; and unless the payload opens to a message with a valid signature, it
  -- changes the audit log at most and is dropped.
  pub receive_d2d-effects :
      (payload : Payload) (trust id : String) (now : ℕ) (s : Node)
      → let (result, s') = receive_d2d unseal verify hash parse payload trust id now s in
        Leaves result.action s s'
        × (((m : DinaMessage) × (sig : String) × (unseal payload ≡ some (m, sig))
              × (verify m sig ≡ true))
            ⊎ ((result.action ≡ dropped) × Untouched s s'))
  unfolding receive_d2d append_audit
  receive_d2d-effects payload trust id now s = elim (Option-cases (unseal payload)) [
    | inl gone ↦ rw (gone, receive_d2d) ((refl, refl, refl, refl, refl), inr (refl, refl))
    | inr ((m, sig), opened) ↦ elim (Bool-cases (verify m sig)) [
      | inl good ↦
          let r = receive_verified-Effect hash parse trust id now m s in
          (rw (opened, receive_d2d) (rw (good, receive_d2d) r.leaves), inl (m, sig, opened, good))
      | inr bad ↦
          rw (opened, receive_d2d)
            (rw (bad, receive_d2d) ((refl, refl, refl, refl, refl), inr (refl, refl)))
    ]
  ]
