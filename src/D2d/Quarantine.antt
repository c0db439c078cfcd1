-- ===== src/D2d/Quarantine.antt =====
-- packages/core/src/d2d/quarantine.ts: the messages of unknown senders. `now` is in milliseconds. A
-- loop that deletes and counts returns the count of what it takes out.
use Prim.Native.String.{◌++◌ as ◌+++◌}
use dina_mobile.Prelude.{
  ℕ, ◌+◌, ◌-◌, ◌*◌, String, Bool, not, Option, List, [], ◌∷◌, leb, ◌==◌, keep, decimal,
  if◌then◌else◌,
}
use dina_mobile.JsMap
use dina_mobile.JsMap.{JsMap}
use dina_mobile.JsSet

pub record QuarantinedMessage : Type 0 where
  pub id : String
  pub sender_did : String
  pub message_type : String
  pub body : String
  pub received_at : ℕ
  pub expires_at : ℕ

abbrev pub ttl_ms : ℕ
ttl_ms = 30 * 24 * 60 * 60 * 1000

pub record Quarantine : Type 0 where
  pub messages : JsMap QuarantinedMessage
  pub id_counter : ℕ

unfoldable pub reset_quarantine_state : Quarantine
reset_quarantine_state = record { messages = []; id_counter = 0 }

unfoldable pub quarantine_id : ℕ → String
quarantine_id n = "q-" +++ decimal n

unfoldable pub quarantine_message :
    String → String → String → ℕ → Quarantine → QuarantinedMessage × Quarantine
quarantine_message sender_did message_type body now s =
    let id = quarantine_id (s.id_counter + 1) in
    let msg : QuarantinedMessage = record {
      id = id;
      sender_did = sender_did;
      message_type = message_type;
      body = body;
      received_at = now;
      expires_at = now + ttl_ms;
    } in
    (msg, record { messages = JsMap.set id msg s.messages; id_counter = s.id_counter + 1 })

-- `sort((a, b) => b.receivedAt - a.receivedAt)`, which is stable.
unfoldable pub insert_newest :
    QuarantinedMessage → List QuarantinedMessage → List QuarantinedMessage
insert_newest m [] = m ∷ []
insert_newest m (x ∷ xs) =
    if leb x.received_at m.received_at then m ∷ x ∷ xs else x ∷ insert_newest m xs

unfoldable pub newest_first : List QuarantinedMessage → List QuarantinedMessage
unfolding insert_newest
newest_first [] = []
newest_first (x ∷ xs) = insert_newest x (newest_first xs)

unfoldable pub list_quarantined : Quarantine → List QuarantinedMessage
list_quarantined s = newest_first (JsMap.values s.messages)

abbrev pub is_from : String → QuarantinedMessage → Bool
is_from sender_did m = m.sender_did == sender_did

unfoldable pub list_by_sender : String → Quarantine → List QuarantinedMessage
list_by_sender sender_did s = newest_first (keep (is_from sender_did) (JsMap.values s.messages))

-- What a loop leaves that deletes the messages which `p` takes.
abbrev pub without : (QuarantinedMessage → Bool) → Quarantine → Quarantine
without p s = record s { messages = JsMap.retain (λ m. not (p m)) s.messages }

unfoldable pub unquarantine_sender : String → Quarantine → List QuarantinedMessage × Quarantine
unquarantine_sender sender_did s =
    (keep (is_from sender_did) (JsMap.values s.messages), without (is_from sender_did) s)

unfoldable pub block_sender : String → Quarantine → ℕ × Quarantine
block_sender sender_did s =
    let s' = without (is_from sender_did) s in (JsMap.size s.messages - JsMap.size s'.messages, s')

unfoldable pub delete_quarantined : String → Quarantine → Bool × Quarantine
delete_quarantined message_id s =
    (JsMap.has message_id s.messages, record s { messages = JsMap.delete message_id s.messages })

unfoldable pub sweep_expired : ℕ → Quarantine → ℕ × Quarantine
sweep_expired now s =
    let s' = without (λ m. leb m.expires_at now) s in
    (JsMap.size s.messages - JsMap.size s'.messages, s')

unfoldable pub quarantine_size : Quarantine → ℕ
quarantine_size s = JsMap.size s.messages

unfoldable pub get_quarantined : String → Quarantine → Option QuarantinedMessage
get_quarantined message_id s = JsMap.get message_id s.messages

-- The members of a set to which the senders are added in turn.
unfoldable pub senders_of : List String → List QuarantinedMessage → List String
senders_of acc [] = acc
senders_of acc (m ∷ ms) = senders_of (JsSet.add m.sender_did acc) ms

unfoldable pub get_quarantined_senders : Quarantine → List String
unfolding senders_of
get_quarantined_senders s = senders_of [] (JsMap.values s.messages)
