-- ===== src/D2d/Gates.antt =====
-- packages/core/src/d2d/gates.ts: the gates that a message passes before it is sent.
use dina_mobile.Prelude.{
  String, Bool, true, false, not, Option, none, some, List, [], ◌∷◌, ◌==◌, any, if◌then◌else◌,
  or_default,
}
use dina_mobile.JsSet
use dina_mobile.JsSet.{has-add, has-delete}
use dina_mobile.JsMap
use dina_mobile.JsMap.{JsMap}
use dina_mobile.D2d.Families.{always_passes}

pub record GateState : Type 0 where
  pub known_contacts : List String
  pub scenario_deny : JsMap (List String)
  pub sharing_restrictions : JsMap (List String)
  pub blocked_destinations : List String
  pub trusted_destinations : List String

pub data Gate : Type 0 where
  contact scenario sharing audit : Gate

pub record EgressCheckResult : Type 0 where
  pub allowed : Bool
  pub denied_at : Option Gate

abbrev pub default_restricted_categories : List String
default_restricted_categories = "health" ∷ "financial" ∷ "medical_record" ∷ []

unfoldable pub clear_gates_state : GateState
clear_gates_state = record {
  known_contacts = [];
  scenario_deny = [];
  sharing_restrictions = [];
  blocked_destinations = [];
  trusted_destinations = [];
}

unfoldable pub add_contact : String → GateState → GateState
add_contact did s = record s { known_contacts = JsSet.add did s.known_contacts }

-- `new Set(items)`
unfoldable pub set_of : List String → List String → List String
set_of acc [] = acc
set_of acc (x ∷ xs) = set_of (JsSet.add x acc) xs

unfoldable pub set_scenario_deny : String → List String → GateState → GateState
unfolding set_of
set_scenario_deny did denied_types s = record s {
  scenario_deny = JsMap.set did (set_of [] denied_types) s.scenario_deny;
}

unfoldable pub set_sharing_restrictions : String → List String → GateState → GateState
unfolding set_of
set_sharing_restrictions did restricted s = record s {
  sharing_restrictions = JsMap.set did (set_of [] restricted) s.sharing_restrictions;
}

unfoldable pub block_destination : String → GateState → GateState
block_destination did s = record s {
  blocked_destinations = JsSet.add did s.blocked_destinations;
  trusted_destinations = JsSet.delete did s.trusted_destinations;
}

unfoldable pub unblock_destination : String → GateState → GateState
unblock_destination did s = record s {
  blocked_destinations = JsSet.delete did s.blocked_destinations;
}

unfoldable pub trust_destination : String → GateState → GateState
trust_destination did s = record s {
  trusted_destinations = JsSet.add did s.trusted_destinations;
  blocked_destinations = JsSet.delete did s.blocked_destinations;
}

unfoldable pub untrust_destination : String → GateState → GateState
untrust_destination did s = record s {
  trusted_destinations = JsSet.delete did s.trusted_destinations;
}

unfoldable pub is_destination_blocked : String → GateState → Bool
is_destination_blocked did s = JsSet.has did s.blocked_destinations

unfoldable pub is_destination_trusted : String → GateState → Bool
is_destination_trusted did s = JsSet.has did s.trusted_destinations

unfoldable pub check_contact_gate : String → GateState → Bool
check_contact_gate recipient_did s =
    if recipient_did == "" then false else JsSet.has recipient_did s.known_contacts

unfoldable pub check_scenario_gate : String → String → GateState → Bool
check_scenario_gate recipient_did message_type s =
    if always_passes message_type then true else elim (JsMap.get recipient_did s.scenario_deny) [
      | none ↦ true
      | some denied ↦ not (JsSet.has message_type denied)
    ]

-- The categories that are restricted for a contact.
unfoldable pub restricted_for : String → GateState → List String
restricted_for recipient_did s =
    or_default (JsMap.get recipient_did s.sharing_restrictions) default_restricted_categories

unfoldable pub check_sharing_gate : String → List String → GateState → Bool
unfolding restricted_for
check_sharing_gate recipient_did [] s = true
check_sharing_gate recipient_did (c ∷ cs) s =
    not (any (λ cat. JsSet.has cat (restricted_for recipient_did s)) (c ∷ cs))

abbrev denied : Gate → EgressCheckResult
denied g = record { allowed = false; denied_at = some g }

abbrev passed : EgressCheckResult
passed = record { allowed = true; denied_at = none }

-- The reasons, texts for a person, are not modelled.
unfoldable pub check_egress_gates : String → String → List String → GateState → EgressCheckResult
unfolding is_destination_blocked is_destination_trusted
check_egress_gates recipient_did message_type data_categories s =
    if is_destination_blocked recipient_did s
    then denied contact
    else if is_destination_trusted recipient_did s
    then passed
    else if not (check_contact_gate recipient_did s)
    then denied contact
    else if not (check_scenario_gate recipient_did message_type s)
    then denied scenario
    else if not (check_sharing_gate recipient_did data_categories s)
    then denied sharing
    else passed

-- The calls that change the state.
pub data GateOp : Type 0 where
  op_add_contact : String → GateOp
  op_scenario_deny : String → List String → GateOp
  op_restrict : String → List String → GateOp
  op_block op_unblock op_trust op_untrust : String → GateOp

unfoldable pub configure : GateOp → GateState → GateState
unfolding add_contact set_scenario_deny set_sharing_restrictions block_destination
    unblock_destination trust_destination untrust_destination
configure (op_add_contact did) = add_contact did
configure (op_scenario_deny did types) = set_scenario_deny did types
configure (op_restrict did categories) = set_sharing_restrictions did categories
configure (op_block did) = block_destination did
configure (op_unblock did) = unblock_destination did
configure (op_trust did) = trust_destination did
configure (op_untrust did) = untrust_destination did

unfoldable pub configure_all : List GateOp → GateState → GateState
configure_all [] s = s
configure_all (op ∷ ops) s = configure_all ops (configure op s)
