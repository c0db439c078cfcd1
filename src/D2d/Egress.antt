-- ===== src/D2d/Egress.antt =====
-- packages/core/src/d2d/gates.ts: what the egress gates decide, and what blocking promises.
use dina_mobile.Prelude.{
  String, Bool, true, false, not, some, List, [], ◌∷◌, ◌≡◌, ◌⊎◌, ◌↔◌, refl, arith, ◌==◌, ◌&&◌,
  eq_refl, any, All,
}
use dina_mobile.JsSet
use dina_mobile.JsSet.{has-add, has-delete}
use dina_mobile.D2d.Families.{always_passes}
use dina_mobile.D2d.Gates.{
  GateState, contact, sharing, clear_gates_state, is_destination_blocked, is_destination_trusted,
  check_contact_gate, check_scenario_gate, check_sharing_gate, check_egress_gates, restricted_for,
  block_destination, GateOp, op_block, op_unblock, op_trust, op_untrust, configure, configure_all,
}

-- No destination is blocked and trusted.
abbrev pub IsExclusive : GateState → Type 0
IsExclusive s =
    (did : String) → (is_destination_blocked did s && is_destination_trusted did s) ≡ false

configure-IsExclusive : (op : GateOp) (s : GateState) → IsExclusive s → IsExclusive (configure op s)
unfolding configure is_destination_blocked is_destination_trusted
configure-IsExclusive (op_block k) s h did =
    ground
      (arith, h did, has-add k did s.blocked_destinations, has-delete k did s.trusted_destinations)
configure-IsExclusive (op_unblock k) s h did =
    ground (arith, h did, has-delete k did s.blocked_destinations)
configure-IsExclusive (op_trust k) s h did =
    ground
      (arith, h did, has-add k did s.trusted_destinations, has-delete k did s.blocked_destinations)
configure-IsExclusive (op_untrust k) s h did =
    ground (arith, h did, has-delete k did s.trusted_destinations)
configure-IsExclusive _ s h did = h did

configure_all-keeps :
    (ops : List GateOp) (s : GateState) → IsExclusive s → IsExclusive (configure_all ops s)
unfolding configure_all
configure_all-keeps [] s h = h
configure_all-keeps (op ∷ ops) s h =
    configure_all-keeps ops (configure op s) (configure-IsExclusive op s h)

-- After any calls from the cleared state no destination is blocked and trusted at once.
pub configure_all-IsExclusive :
    (ops : List GateOp) → IsExclusive (configure_all ops clear_gates_state)
unfolding clear_gates_state is_destination_blocked JsSet.has
configure_all-IsExclusive ops = configure_all-keeps ops clear_gates_state (λ did. refl)

-- The call does not lift the block of `did`.
abbrev pub keeps_block : String → GateOp → Bool
keeps_block did (op_unblock k) = not (k == did)
keeps_block did (op_trust k) = not (k == did)
keeps_block did _ = true

configure-blocked :
    (did : String) (op : GateOp) (s : GateState)
    → keeps_block did op ≡ true
    → is_destination_blocked did s ≡ true
    → is_destination_blocked did (configure op s) ≡ true
unfolding configure is_destination_blocked
configure-blocked did (op_block k) s keeps h = ground (arith, has-add k did s.blocked_destinations)
configure-blocked did (op_unblock k) s keeps h =
    ground (arith, has-delete k did s.blocked_destinations)
configure-blocked did (op_trust k) s keeps h =
    ground (arith, has-delete k did s.blocked_destinations)
configure-blocked did _ s keeps h = h

configure_all-blocked :
    (did : String) (ops : List GateOp) (s : GateState)
    → All (λ op. keeps_block did op ≡ true) ops
    → is_destination_blocked did s ≡ true
    → is_destination_blocked did (configure_all ops s) ≡ true
unfolding configure_all
configure_all-blocked did [] s keeps h = h
configure_all-blocked did (op ∷ ops) s keeps h =
    configure_all-blocked did ops (configure op s) keeps.1 (configure-blocked did op s keeps.0 h)

-- From the block of a destination on, as long as no call unblocks or trusts it, `checkEgressGates`
-- denies every message to it at the contact gate, whatever its type and categories. The gates are not
-- asked for service messages that the bypass of `sendD2D` allows.
pub block_holds :
    (did message_type : String) (categories : List String) (ops : List GateOp) (s : GateState)
    → All (λ op. keeps_block did op ≡ true) ops
    → let result =
        check_egress_gates did message_type categories
          (configure_all ops (block_destination did s)) in
      (result.allowed ≡ false) × (result.denied_at ≡ some contact)
unfolding check_egress_gates
block_holds did message_type categories ops s keeps =
    let blocked : is_destination_blocked did (block_destination did s) ≡ true =
      (unfold block_destination is_destination_blocked in
        simp (has-add did did s.blocked_destinations, eq_refl)) in
    ground (arith, configure_all-blocked did ops (block_destination did s) keeps blocked)

any_restricted :
    (rs cats : List String)
    → (not (any (λ c. JsSet.has c rs) cats) ≡ true) ↔ All (λ c. JsSet.has c rs ≡ false) cats
any_restricted rs [] = (λ h. tt, λ h. refl)
any_restricted rs (c ∷ cs) = (
  λ h. ground (arith, (any_restricted rs cs).0),
  λ h. ground (arith, (any_restricted rs cs).1 h.1),
)

sharing_iff :
    (did : String) (cats : List String) (s : GateState)
    → (check_sharing_gate did cats s ≡ true)
      ↔ All (λ c. JsSet.has c (restricted_for did s) ≡ false) cats
unfolding check_sharing_gate
sharing_iff did [] s = (λ h. tt, λ h. refl)
sharing_iff did (c ∷ cs) s = any_restricted (restricted_for did s) (c ∷ cs)

-- A message is allowed exactly if its destination is not blocked, and is trusted or passes the
-- contact gate, the scenario gate and, for each of its categories, the sharing restrictions.
pub egress_allowed_iff :
    (did message_type : String) (cats : List String) (s : GateState)
    → ((check_egress_gates did message_type cats s).allowed ≡ true) ↔ (
        (is_destination_blocked did s ≡ false)
        × ((is_destination_trusted did s ≡ true)
            ⊎ ((check_contact_gate did s ≡ true)
                × (check_scenario_gate did message_type s ≡ true)
                × All (λ c. JsSet.has c (restricted_for did s) ≡ false) cats)))
unfolding check_egress_gates
egress_allowed_iff did message_type cats s = (
  λ h. ground (arith, (sharing_iff did cats s).0),
  λ h. ground (arith, (sharing_iff did cats s).1),
)

-- A safety alert to a contact that is neither blocked nor trusted is still denied, at the sharing
-- gate, if its first category is restricted for the contact.
pub safety_alert_denied :
    (did category : String) (cats : List String) (s : GateState)
    → is_destination_blocked did s ≡ false
    → is_destination_trusted did s ≡ false
    → check_contact_gate did s ≡ true
    → JsSet.has category (restricted_for did s) ≡ true
    → (check_egress_gates did "safety.alert" (category ∷ cats) s).denied_at ≡ some sharing
unfolding check_egress_gates check_sharing_gate check_scenario_gate always_passes
safety_alert_denied did category cats s b t c r = ground arith
