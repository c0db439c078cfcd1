-- ===== src/Gatekeeper/Intent.antt =====
-- packages/core/src/gatekeeper/intent.ts: the risk of an action. The reasons, texts for a person,
-- are not modelled.
use dina_mobile.Prelude.{
  String, Bool, true, false, not, Option, none, some, List, [], ◌∷◌, ◌==◌, ◌&&◌, ◌||◌,
  if◌then◌else◌, or_default,
}
use dina_mobile.JsMap
use dina_mobile.JsMap.{JsMap}
use dina_mobile.JsSet

pub data RiskLevel : Type 0 where
  safe moderate high blocked : RiskLevel

-- What an index into the policy object finds: one of its levels, or a member that every object
-- inherits, which is no text.
pub data Lookup : Type 0 where
  level : RiskLevel → Lookup
  inherited : Lookup

unfoldable pub default_policy : JsMap RiskLevel
default_policy =
    ("search", safe)
    ∷ ("list", safe)
    ∷ ("query", safe)
    ∷ ("remember", safe)
    ∷ ("store", safe)
    ∷ ("send_small", safe)
    ∷ ("delete_small", safe)
    ∷ ("send_large", moderate)
    ∷ ("delete_large", moderate)
    ∷ ("modify_settings", moderate)
    ∷ ("purchase", high)
    ∷ ("payment", high)
    ∷ ("bulk_operation", high)
    ∷ ("credential_export", blocked)
    ∷ ("key_access", blocked)
    ∷ []

-- The members of `Object.prototype`.
unfoldable pub inherited_names : List String
inherited_names =
    "constructor" ∷ "hasOwnProperty" ∷ "isPrototypeOf" ∷ "propertyIsEnumerable" ∷ "toLocaleString"
    ∷ "toString" ∷ "valueOf" ∷ "__proto__" ∷ "__defineGetter__" ∷ "__defineSetter__"
    ∷ "__lookupGetter__" ∷ "__lookupSetter__" ∷ []

unfoldable pub brain_denied : List String
brain_denied =
    "did_sign" ∷ "did_rotate" ∷ "vault_backup" ∷ "persona_unlock" ∷ "seed_export" ∷ "vault_raw_read"
    ∷ "vault_raw_write" ∷ "vault_export" ∷ []

unfoldable pub money_actions : List String
money_actions = "purchase" ∷ "payment" ∷ []

unfoldable pub is_brain_denied : String → Bool
unfolding brain_denied
is_brain_denied action = JsSet.has action brain_denied

unfoldable pub is_money_action : String → Bool
unfolding money_actions
is_money_action action = JsSet.has action money_actions

unfoldable pub get_default_risk_level : String → Option Lookup
unfolding default_policy inherited_names
get_default_risk_level action = elim (JsMap.get action default_policy) [
  | some r ↦ some (level r)
  | none ↦ if JsSet.has action inherited_names then some inherited else none
]

pub record IntentDecision : Type 0 where
  pub allowed : Bool
  pub risk_level : Lookup
  pub requires_approval : Bool
  pub audit : Bool

abbrev pub denied : IntentDecision
denied = record {
  allowed = false;
  risk_level = level blocked;
  requires_approval = false;
  audit = true;
}

abbrev is_ring2 : String → Bool
is_ring2 trust_level = trust_level == "verified" || trust_level == "self"

-- A trust level is given, and it is none of "verified", "self" and "".
unfoldable pub is_untrusted : Option String → Bool
is_untrusted none = false
is_untrusted (some trust_level) = not (is_ring2 trust_level) && not (trust_level == "")

abbrev pub escalated : Lookup → Lookup
escalated (level safe) = level moderate
escalated l = l

abbrev pub decision : Lookup → IntentDecision
decision (level blocked) = denied
decision (level safe) = record {
  allowed = true;
  risk_level = level safe;
  requires_approval = false;
  audit = false;
}
decision inherited = record {
  allowed = true;
  risk_level = inherited;
  requires_approval = false;
  audit = true;
}
decision l = record { allowed = true; risk_level = l; requires_approval = true; audit = true }

unfoldable pub evaluate_intent : String → Option String → IntentDecision
unfolding is_brain_denied is_money_action is_untrusted get_default_risk_level
evaluate_intent action trust_level =
    let risk_level = or_default (get_default_risk_level action) (level moderate) in
    if is_brain_denied action
    then denied
    else if is_money_action action && is_untrusted trust_level
    then denied
    else decision (if is_untrusted trust_level then escalated risk_level else risk_level)

unfoldable pub evaluate_intent_with_persona : String → Bool → Option String → IntentDecision
unfolding evaluate_intent
evaluate_intent_with_persona action persona_open trust_level =
    if not persona_open then denied else evaluate_intent action trust_level
