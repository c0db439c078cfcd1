-- ===== src/D2d/Replay.antt =====
-- packages/core/src/d2d/receive_pipeline.ts: a message that arrives again.
use dina_mobile.Prelude.{
  ℕ, ◌/◌, String, Bool, true, Option, some, ◌≡◌, refl, ap, ◌∙◌, arith, Bool-cases, inl, inr,
  is_some,
}
use dina_mobile.JsMap
use dina_mobile.JsMap.{JsMap, get-set_self}
use dina_mobile.D2d.Receive.{
  Node, DinaMessage, ReceiveResult, dropped, plain_result, append_audit, is_replayed_message,
  record_message_id, replay_key, stage_message, quarantine_and_audit, receive_and_stage,
  accept_query, accept_response, apply_service_ingress_decision, receive_service,
  receive_from_sender, receive_new, receive_verified, receive_d2d, is_contact_level, drop_with,
}
use dina_mobile.Service.Bodies.{Json, ServiceBody}
use dina_mobile.Service.Bypass.{ServiceBypassDecision, not_service, allow, deny}

module _ (hash : JsMap String → String) where
  stage_message-replay :
      (id : String) (now : ℕ) (m : DinaMessage) (s : Node)
      → (stage_message hash id now m s).1.replay_cache ≡ s.replay_cache
  unfolding stage_message append_audit
  stage_message-replay id now m s = refl

  quarantine-replay :
      (now : ℕ) (m : DinaMessage) (s : Node)
      → (quarantine_and_audit hash now m s).1.replay_cache ≡ s.replay_cache
  unfolding quarantine_and_audit append_audit
  quarantine-replay now m s = refl

  receive_and_stage-replay :
      (trust : String) (is_contact : Bool) (id : String) (now : ℕ) (m : DinaMessage) (s : Node)
      → (receive_and_stage hash trust is_contact id now m s).1.replay_cache ≡ s.replay_cache
  unfolding receive_and_stage append_audit
  receive_and_stage-replay trust is_contact id now m s =
      ground (arith, stage_message-replay id now m s, quarantine-replay now m s)

accept_response-replay :
    (now : ℕ) (m : DinaMessage) (body : ServiceBody) (s : Node)
    → (accept_response now m body s).1.replay_cache ≡ s.replay_cache
unfolding accept_response append_audit
accept_response-replay now m body s = ground arith

decision-replay :
    (now : ℕ) (m : DinaMessage) (d : ServiceBypassDecision) (s : Node)
    → (apply_service_ingress_decision now m d s).1.replay_cache ≡ s.replay_cache
unfolding apply_service_ingress_decision accept_query append_audit
decision-replay now m not_service s = refl
decision-replay now m (deny reason) s = refl
decision-replay now m (allow body) s = ground (arith, accept_response-replay now m body s)

module _ (hash : JsMap String → String) (parse : String → Option Json) where
  receive_from_sender-replay :
      (trust id : String) (now : ℕ) (m : DinaMessage) (s : Node)
      → (receive_from_sender hash parse trust id now m s).1.replay_cache ≡ s.replay_cache
  unfolding receive_from_sender append_audit
  receive_from_sender-replay trust id now m s =
      ground (arith, receive_and_stage-replay hash trust (is_contact_level trust) id now m s)

  receive_service-replay :
      (now : ℕ) (m : DinaMessage) (s : Node)
      → (receive_service hash parse now m s).1.replay_cache ≡ s.replay_cache
  unfolding receive_service
  receive_service-replay now m s = decision-replay now m _ s

  receive_new-replay :
      (trust id : String) (now : ℕ) (m : DinaMessage) (s : Node)
      → (receive_new hash parse trust id now m s).1.replay_cache ≡ s.replay_cache
  unfolding receive_new append_audit
  receive_new-replay trust id now m s =
      ground (arith, receive_service-replay now m s, receive_from_sender-replay trust id now m s)

  receive_verified-recorded :
      (trust id : String) (now : ℕ) (m : DinaMessage) (s : Node)
      → is_replayed_message (replay_key m) (receive_verified hash parse trust id now m s).1 ≡ true
  unfolding receive_verified is_replayed_message append_audit record_message_id JsMap.has
  receive_verified-recorded trust id now m s =
      elim (Bool-cases (is_some (JsMap.get (replay_key m) s.replay_cache))) [
        | inl seen ↦ ground arith
        | inr new ↦
            let kept = receive_new-replay trust id now m (record_message_id (replay_key m) now s) in
            ground (arith, kept, get-set_self (replay_key m) (now / 1000) s.replay_cache)
      ]

module _ {Payload : Type 0} (unseal : Payload → Option (DinaMessage × String))
    (verify : DinaMessage → String → Bool) (hash : JsMap String → String)
    (parse : String → Option Json) where
  pub receive_d2d-verified :
      (payload : Payload) (m : DinaMessage) (sig trust id : String) (now : ℕ) (s : Node)
      → unseal payload ≡ some (m, sig)
      → verify m sig ≡ true
      → receive_d2d unseal verify hash parse payload trust id now s
        ≡ receive_verified hash parse trust id now m s
  unfolding receive_d2d
  receive_d2d-verified payload m sig trust id now s o v = ground arith

  receive_verified-seen :
      (trust id : String) (now : ℕ) (m : DinaMessage) (s : Node)
      → is_replayed_message (replay_key m) s ≡ true
      → receive_verified hash parse trust id now m s ≡ drop_with "d2d_recv_replay" m s
  unfolding receive_verified
  receive_verified-seen trust id now m s h = ground arith

  -- A payload that opens and has a valid signature, and arrives when one with the same sender and
  -- message id has just been processed, is dropped: it leaves an audit line and changes nothing else,
  -- whatever the first was worth, whatever the trust in the sender is by then, and at any time.
  pub receive_d2d-replayed :
      (first again : Payload) (m m' : DinaMessage) (sig sig' trust trust' id id' : String)
      (now later : ℕ) (s : Node)
      → unseal first ≡ some (m, sig)
      → verify m sig ≡ true
      → unseal again ≡ some (m', sig')
      → verify m' sig' ≡ true
      → replay_key m' ≡ replay_key m
      → let s' = (receive_d2d unseal verify hash parse first trust id now s).1 in
        receive_d2d unseal verify hash parse again trust' id' later s'
        ≡ (plain_result dropped true, append_audit "d2d_recv_replay" m' s')
  receive_d2d-replayed first again m m' sig sig' trust trust' id id' now later s o v o' v' same =
      let s' = (receive_d2d unseal verify hash parse first trust id now s).1 in
      let known : is_replayed_message (replay_key m') s' ≡ true =
        ap (λ k. is_replayed_message k s') same
        ∙ ap (λ (r : ReceiveResult × Node). is_replayed_message (replay_key m) r.1)
            (receive_d2d-verified first m sig trust id now s o v)
        ∙ receive_verified-recorded hash parse trust id now m s in
      receive_d2d-verified again m' sig' trust' id' later s' o' v'
      ∙ receive_verified-seen trust' id' later m' s' known
