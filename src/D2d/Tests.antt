-- ===== src/D2d/Tests.antt =====
-- packages/core/src/d2d: the egress gates at concrete states.
use dina_mobile.Prelude.{false, some, [], ◌∷◌, ◌≡◌, refl}
use dina_mobile.D2d.Families.{map_to_vault_item_type, msg_type_to_scenario}
use dina_mobile.D2d.Gates.{
  GateState, contact, clear_gates_state, check_egress_gates, block_destination, op_add_contact,
  op_trust, configure_all,
}
use dina_mobile.D2d.Egress.{block_holds}

abbrev friend : GateState
friend = record clear_gates_state { known_contacts = "did:a" ∷ [] }

block_holds_example :
    let result = check_egress_gates "did:a" "safety.alert" [] (
      configure_all
        (op_add_contact "did:a" ∷ op_trust "did:b" ∷ [])
        (block_destination "did:a" friend)) in
    (result.allowed ≡ false) × (result.denied_at ≡ some contact)
block_holds_example =
    block_holds "did:a" "safety.alert" [] (op_add_contact "did:a" ∷ op_trust "did:b" ∷ []) friend
      (refl, (refl, tt))

social_is_note : map_to_vault_item_type "social.update" ≡ some "relationship_note"
unfolding map_to_vault_item_type
social_is_note = refl

query_is_service : msg_type_to_scenario "service.query" ≡ "service"
unfolding msg_type_to_scenario
query_is_service = refl
