-- ===== src/Gatekeeper/Sharing.antt =====
-- packages/core/src/gatekeeper/sharing.ts: the tiers that each contact has for categories of data.
-- A tier is its text, since the setters check it at run time; the fields of a payload are texts.
use dina_mobile.Prelude.{
  ℕ, String, Bool, true, false, not, Option, none, some, List, [], ◌∷◌, ◌==◌, ◌&&◌, ◌||◌,
  if◌then◌else◌, or_default, Result, ok, err,
}
use dina_mobile.JsMap
use dina_mobile.JsMap.{JsMap}
use dina_mobile.JsSet

abbrev pub Policies : Type 0
Policies = JsMap (JsMap String)

unfoldable pub valid_sharing_tiers : List String
valid_sharing_tiers =
    "none" ∷ "summary" ∷ "full" ∷ "locked" ∷ "eta_only" ∷ "free_busy" ∷ "exact_location" ∷ []

pub data SharingError : Type 0 where
  invalid_tier : SharingError

abbrev is_valid_tier : String → Bool
is_valid_tier tier = JsSet.has tier valid_sharing_tiers

unfoldable pub set_sharing_policy :
    String → String → String → Policies → Result SharingError Unit × Policies
unfolding valid_sharing_tiers
set_sharing_policy contact_did category tier ps =
    if not (is_valid_tier tier) then (err invalid_tier, ps) else (
      ok tt,
      JsMap.set contact_did (JsMap.set category tier (or_default (JsMap.get contact_did ps) [])) ps,
    )

unfoldable pub validate_sharing_tier : String → Option SharingError
unfolding valid_sharing_tiers
validate_sharing_tier tier = if is_valid_tier tier then none else some invalid_tier

unfoldable pub set_bulk_policy : String → String → Policies → Result SharingError ℕ × Policies
unfolding valid_sharing_tiers
set_bulk_policy category tier ps =
    if not (is_valid_tier tier)
    then (err invalid_tier, ps)
    else (ok (JsMap.size ps), JsMap.update_all (JsMap.set category tier) ps)

unfoldable pub get_sharing_tier : String → String → Policies → String
get_sharing_tier contact_did category ps = elim (JsMap.get contact_did ps) [
  | none ↦ "none"
  | some policy ↦ or_default (JsMap.get category policy) "none"
]

pub record SharingDecision : Type 0 where
  pub allowed : Bool
  pub tier : String
  pub filtered_categories : List String

abbrev pub is_restricted : String → Bool
is_restricted tier = tier == "none" || tier == "locked"

abbrev pub is_narrow : String → Bool
is_narrow tier = tier == "summary" || tier == "eta_only" || tier == "free_busy"

-- The body of the loop: the lowest tier so far, after the tier of one more category.
unfoldable pub lower : String → String → String
lower lowest tier =
    if is_restricted tier
    then "none"
    else if tier == "summary" && lowest == "full"
    then "summary"
    else if (tier == "eta_only" || tier == "free_busy") && lowest == "full"
    then tier
    else lowest

unfoldable pub sharing_loop : (String → String) → List String → String → List String × String
unfolding lower
sharing_loop tier_of [] lowest = ([], lowest)
sharing_loop tier_of (cat ∷ cats) lowest =
    let (filtered, lowest') = sharing_loop tier_of cats (lower lowest (tier_of cat)) in
    (if is_restricted (tier_of cat) then cat ∷ filtered else filtered, lowest')

abbrev pub decide : List String × String → SharingDecision
decide ([], lowest) = record { allowed = true; tier = lowest; filtered_categories = [] }
decide (c ∷ cs, lowest) = record { allowed = false; tier = "none"; filtered_categories = c ∷ cs }

-- With no categories the loop does nothing.
unfoldable pub check_sharing_policy : String → List String → Policies → SharingDecision
unfolding sharing_loop get_sharing_tier
check_sharing_policy contact_did categories ps =
    decide (sharing_loop (λ cat. get_sharing_tier contact_did cat ps) categories "full")

abbrev pub clear_sharing_policies : Policies
clear_sharing_policies = []
