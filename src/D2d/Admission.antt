-- ===== src/D2d/Admission.antt =====
-- packages/core/src/d2d/receive_pipeline.ts: what a message must be to get in.
use dina_mobile.Prelude.{
  ℕ, String, Bool, true, false, Option, some, ◌≡◌, ◌⊎◌, arith, ◌==◌, Bool-cases, Option-cases, inl,
  inr,
}
use dina_mobile.JsMap.{JsMap}
use dina_mobile.D2d.Families.{should_store, always_passes, is_valid_v1_type, message_too_large}
use dina_mobile.D2d.Gates.{check_scenario_gate}
use dina_mobile.D2d.Receive.{
  Node, DinaMessage, staged, is_replayed_message, record_message_id, replay_key, stage_message,
  quarantine_and_audit, receive_and_stage, accept_query, accept_response,
  apply_service_ingress_decision, receive_service, receive_from_sender, receive_new,
  receive_verified, receive_d2d, is_contact_level,
}
use dina_mobile.Service.Bodies.{Json}
use dina_mobile.Service.Bypass.{ServiceBypassDecision, not_service, allow, deny}

-- What a message that is staged went through.
pub record IsAdmitted (trust : String) (m : DinaMessage) (s : Node) : Type 0 where
  pub unseen : is_replayed_message (replay_key m) s ≡ false
  pub family : is_valid_v1_type m.message_type ≡ true
  pub small : message_too_large m.body_size ≡ false
  pub unblocked : (trust == "blocked") ≡ false
  pub stored : should_store m.message_type ≡ true
  pub trusted :
      (always_passes m.message_type ≡ true)
      ⊎ ((is_contact_level trust ≡ true)
          × (check_scenario_gate m.from m.message_type s.gates ≡ true))

decision-unstaged :
    (now : ℕ) (m : DinaMessage) (d : ServiceBypassDecision) (s : Node)
    → (apply_service_ingress_decision now m d s).0.action ≡ staged
    → ⊥
unfolding apply_service_ingress_decision accept_query accept_response
decision-unstaged now m not_service s h = absurd (ground arith)
decision-unstaged now m (deny reason) s h = absurd (ground arith)
decision-unstaged now m (allow body) s h = absurd (ground arith)

module _ (hash : JsMap String → String) (parse : String → Option Json) where
  receive_from_sender-staged :
      (trust id : String) (now : ℕ) (m : DinaMessage) (s : Node)
      → (receive_from_sender hash parse trust id now m s).0.action ≡ staged
      → (should_store m.message_type ≡ true)
        × ((always_passes m.message_type ≡ true)
            ⊎ ((is_contact_level trust ≡ true)
                × (check_scenario_gate m.from m.message_type s.gates ≡ true)))
  unfolding receive_from_sender receive_and_stage stage_message quarantine_and_audit
  receive_from_sender-staged trust id now m s h = elim (Bool-cases (always_passes m.message_type)) [
    | inl t ↦ (ground arith, inl t)
    | inr f ↦ elim (Bool-cases (is_contact_level trust)) [
      | inl c ↦ (ground arith, inr (c, ground arith))
      | inr n ↦ absurd (ground arith)
    ]
  ]

  receive_service-unstaged :
      (now : ℕ) (m : DinaMessage) (s : Node)
      → (receive_service hash parse now m s).0.action ≡ staged
      → ⊥
  unfolding receive_service
  receive_service-unstaged now m s h = decision-unstaged now m _ s h

  receive_new-staged :
      (trust id : String) (now : ℕ) (m : DinaMessage) (s : Node)
      → (receive_new hash parse trust id now m s).0.action ≡ staged
      → (is_valid_v1_type m.message_type ≡ true)
        × (message_too_large m.body_size ≡ false)
        × ((trust == "blocked") ≡ false)
        × ((receive_from_sender hash parse trust id now m s).0.action ≡ staged)
  unfolding receive_new receive_service
  receive_new-staged trust id now m s h = ground (arith, receive_service-unstaged now m s)

  receive_verified-staged :
      (trust id : String) (now : ℕ) (m : DinaMessage) (s : Node)
      → (receive_verified hash parse trust id now m s).0.action ≡ staged
      → IsAdmitted trust m s
  unfolding receive_verified record_message_id
  receive_verified-staged trust id now m s h =
      elim (Bool-cases (is_replayed_message (replay_key m) s)) [
        | inl seen ↦ absurd (ground arith)
        | inr new ↦
            let s' = record_message_id (replay_key m) now s in
            let (family, small, unblocked, action) =
              receive_new-staged trust id now m s' (ground arith) in
            let (stored, trusted) = receive_from_sender-staged trust id now m s' action in
            record {
              unseen = new;
              family = family;
              small = small;
              unblocked = unblocked;
              stored = stored;
              trusted = trusted;
            }
      ]

module _ {Payload : Type 0} (unseal : Payload → Option (DinaMessage × String))
    (verify : DinaMessage → String → Bool) (hash : JsMap String → String)
    (parse : String → Option Json) where
  -- A payload is staged only if it opens to a message with a valid signature that was not seen
  -- before, is of one of the nine types and one that is stored, is not too large, and comes from
  -- a sender who is not blocked; and only if its type always passes, or the sender is a contact and
  -- the contact's scenario policy lets the type in.
  pub receive_d2d-IsAdmitted :
      (payload : Payload) (trust id : String) (now : ℕ) (s : Node)
      → (receive_d2d unseal verify hash parse payload trust id now s).0.action ≡ staged
      → (m : DinaMessage) × (sig : String) × (unseal payload ≡ some (m, sig))
        × (verify m sig ≡ true)
        × IsAdmitted trust m s
  unfolding receive_d2d
  receive_d2d-IsAdmitted payload trust id now s h = elim (Option-cases (unseal payload)) [
    | inl gone ↦ absurd (ground arith)
    | inr ((m, sig), opened) ↦ elim (Bool-cases (verify m sig)) [
      | inl valid ↦ (
        m,
        sig,
        opened,
        valid,
        receive_verified-staged hash parse trust id now m s (ground arith),
      )
      | inr bad ↦ absurd (ground arith)
    ]
  ]
