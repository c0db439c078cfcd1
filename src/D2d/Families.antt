-- ===== src/D2d/Families.antt =====
-- packages/core/src/d2d/families.ts: the nine message types and what they map to. A type is
-- taken not to be the name of a member that every object inherits, which an index also finds.
use dina_mobile.Prelude.{
  ℕ, String, Bool, not, Option, none, some, List, [], ◌∷◌, ltb, if◌then◌else◌, or_default,
}
use dina_mobile.JsSet
use dina_mobile.JsMap
use dina_mobile.JsMap.{JsMap}

unfoldable pub v1_types : List String
v1_types =
    "presence.signal" ∷ "coordination.request" ∷ "coordination.response" ∷ "social.update"
    ∷ "safety.alert" ∷ "trust.vouch.request" ∷ "trust.vouch.response" ∷ "service.query"
    ∷ "service.response" ∷ []

unfoldable pub vault_type_map : JsMap String
vault_type_map =
    ("social.update", "relationship_note") ∷ ("trust.vouch.response", "trust_attestation") ∷ []

unfoldable pub ephemeral_types : List String
ephemeral_types = "presence.signal" ∷ "service.query" ∷ "service.response" ∷ []

unfoldable pub always_pass_types : List String
always_pass_types = "safety.alert" ∷ []

unfoldable pub type_to_scenario : JsMap String
type_to_scenario =
    ("presence.signal", "presence")
    ∷ ("coordination.request", "coordination")
    ∷ ("coordination.response", "coordination")
    ∷ ("social.update", "social")
    ∷ ("safety.alert", "safety")
    ∷ ("trust.vouch.request", "trust")
    ∷ ("trust.vouch.response", "trust")
    ∷ ("service.query", "service")
    ∷ ("service.response", "service")
    ∷ []

unfoldable pub is_valid_v1_type : String → Bool
unfolding v1_types JsSet.has
is_valid_v1_type message_type = JsSet.has message_type v1_types

unfoldable pub map_to_vault_item_type : String → Option String
unfolding ephemeral_types vault_type_map JsSet.has JsMap.get
map_to_vault_item_type message_type =
    if JsSet.has message_type ephemeral_types
    then none
    else some (or_default (JsMap.get message_type vault_type_map) message_type)

unfoldable pub should_store : String → Bool
unfolding ephemeral_types JsSet.has
should_store message_type = not (JsSet.has message_type ephemeral_types)

unfoldable pub always_passes : String → Bool
unfolding always_pass_types JsSet.has
always_passes message_type = JsSet.has message_type always_pass_types

unfoldable pub msg_type_to_scenario : String → String
unfolding type_to_scenario JsMap.get
msg_type_to_scenario message_type = or_default (JsMap.get message_type type_to_scenario) ""

abbrev pub max_message_body_size : ℕ
max_message_body_size = 262144

-- `size` is the number of bytes of the body; the error is true.
unfoldable pub message_too_large : ℕ → Bool
message_too_large size = ltb max_message_body_size size
