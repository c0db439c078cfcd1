-- ===== src/Gatekeeper/Tests.antt =====
-- packages/core/src/gatekeeper: decisions at concrete actions and policies.
use dina_mobile.Prelude.{
  ◌==◌, ℕ, String, true, false, none, some, [], ◌∷◌, ◌≡◌, ◌↔◌, ◌⊎◌, refl, inr, All, keep,
  if◌then◌else◌,
}
use dina_mobile.JsMap
use dina_mobile.JsSet
use dina_mobile.Gatekeeper.Intent.{
  level, safe, inherited, get_default_risk_level, is_brain_denied, is_untrusted,
  evaluate_intent_with_persona,
}
use dina_mobile.Gatekeeper.Approval.{runs_unasked, unasked_iff}
use dina_mobile.Gatekeeper.Sharing.{Policies, get_sharing_tier, is_restricted}
use dina_mobile.Gatekeeper.Egress.{EgressData, check_egress, scrubbed_body}
use dina_mobile.Gatekeeper.Policy.{first_narrow, egress_exact}

unasked_iff_example :
    (runs_unasked (evaluate_intent_with_persona "toString" true (some "unknown")) ≡ true) ↔ (
      (true ≡ true)
      × (is_brain_denied "toString" ≡ false)
      × (((get_default_risk_level "toString" ≡ some (level safe))
            × (is_untrusted (some "unknown") ≡ false))
          ⊎ (get_default_risk_level "toString" ≡ some inherited)))
unasked_iff_example = unasked_iff "toString" true (some "unknown")

-- An action that happens to be named like an inherited member runs unasked for an untrusted agent.
to_string_unasked :
    runs_unasked (evaluate_intent_with_persona "toString" true (some "unknown")) ≡ true
unfolding is_brain_denied get_default_risk_level JsSet.has JsMap.get
to_string_unasked = (unasked_iff "toString" true (some "unknown")).1 (refl, refl, inr refl)

abbrev policies : Policies
policies = ("did:a", ("location", "eta_only") ∷ ("notes", "summary") ∷ []) ∷ []

abbrev no_pii : String → String × ℕ
no_pii text = (text, 0)

abbrev note : EgressData
note = record { text = "on my way"; categories = "location" ∷ "notes" ∷ []; body = some "details" }

egress_exact_example :
    let r = check_egress no_pii note "did:a" policies in
    let tier_of : String → String = λ c. get_sharing_tier "did:a" c policies in
    ((r.allowed ≡ true) ↔ All (λ c. is_restricted (tier_of c) ≡ false) note.categories)
    × (r.allowed ≡ false
        → (r.filtered_text ≡ "")
          × (r.filtered_body ≡ none)
          × (r.blocked_categories ≡ keep (λ c. is_restricted (tier_of c)) note.categories))
    × (r.allowed ≡ true
        → (r.filtered_text ≡ (no_pii note.text).0)
          × (r.applied_tier ≡ first_narrow tier_of note.categories)
          × (r.filtered_body ≡ (
              if first_narrow tier_of note.categories == "summary"
              then none
              else scrubbed_body no_pii note.body)))
egress_exact_example = egress_exact no_pii note "did:a" policies
