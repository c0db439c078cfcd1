-- ===== src/Gatekeeper/Approval.antt =====
-- packages/core/src/gatekeeper/intent.ts: which actions run without the user's approval.
use dina_mobile.Prelude.{
  subst, ℕ, ◌≤◌, String, Bool, true, false, not, Option, some, ◌≡◌, ◌⊎◌, ◌↔◌, inl, inr, refl, arith,
  ◌&&◌, eq_iff, if◌then◌else◌,
}
use dina_mobile.JsMap
use dina_mobile.JsSet
use dina_mobile.Gatekeeper.Intent.{
  safe, high, level, inherited, default_policy, money_actions, is_brain_denied, is_money_action,
  is_untrusted, get_default_risk_level, IntentDecision, evaluate_intent,
  evaluate_intent_with_persona,
}

-- It runs, and the user is not asked.
abbrev pub runs_unasked : IntentDecision → Bool
runs_unasked d = d.allowed && not d.requires_approval

-- The two money actions.
money_action-cases :
    (action : String) → is_money_action action ≡ true → ("purchase" ≡ action) ⊎ ("payment" ≡ action)
unfolding is_money_action money_actions JsSet.has
money_action-cases action h = ground (arith, eq_iff "purchase" action, eq_iff "payment" action)

money-level :
    (action : String)
    → is_money_action action ≡ true
    → get_default_risk_level action ≡ some (level high)
unfolding get_default_risk_level default_policy JsMap.get
money-level action h = elim (money_action-cases action h) [
  | inl purchase ↦ subst (λ a. get_default_risk_level a ≡ some (level high)) purchase refl
  | inr payment ↦ subst (λ a. get_default_risk_level a ≡ some (level high)) payment refl
]

-- An action runs unasked exactly if the persona is open, the brain is not denied it, and either
-- its policy is safe and the agent is trusted (or no level of trust is given), or its name is
-- that of a member which the policy object inherits, whatever the trust.
pub unasked_iff :
    (action : String) (persona_open : Bool) (trust_level : Option String)
    → (runs_unasked (evaluate_intent_with_persona action persona_open trust_level) ≡ true) ↔ (
        (persona_open ≡ true)
        × (is_brain_denied action ≡ false)
        × (((get_default_risk_level action ≡ some (level safe))
              × (is_untrusted trust_level ≡ false))
            ⊎ (get_default_risk_level action ≡ some inherited)))
unfolding evaluate_intent_with_persona evaluate_intent
unasked_iff action persona_open trust_level =
    (λ h. ground (arith, money-level action), λ h. ground (arith, money-level action))

-- How much a decision holds back: it runs unasked, needs approval, or is denied.
abbrev pub strictness : IntentDecision → ℕ
strictness d = if not d.allowed then 2 else if d.requires_approval then 1 else 0

-- For the same action an untrusted agent is held back at least as much as anyone, and is audited
-- wherever someone is.
pub untrusted_stricter :
    (action : String) (persona_open : Bool) (agent other : Option String)
    → is_untrusted agent ≡ true
    → let d = evaluate_intent_with_persona action persona_open agent in
      let e = evaluate_intent_with_persona action persona_open other in
      (strictness e ≤ strictness d) × (e.audit ≡ true → d.audit ≡ true)
unfolding evaluate_intent_with_persona evaluate_intent
untrusted_stricter action persona_open agent other h = (ground arith, λ a. ground arith)
