-- ===== src/Gatekeeper/Tiers.antt =====
-- packages/core/src/gatekeeper/sharing.ts: payloads cut down to a tier.
use dina_mobile.Prelude.{
  not, is_some, String, Bool, true, false, Option, none, some, List, [], ◌∷◌, ◌≡◌, refl, inl, inr,
  arith, ◌==◌, eq_iff, if◌then◌else◌, Option-cases,
}
use dina_mobile.JsMap
use dina_mobile.JsMap.{JsMap, get-delete, get-set}
use dina_mobile.JsSet
use dina_mobile.Gatekeeper.Sharing.{is_restricted}

abbrev copy_field : String → Option String → JsMap String → JsMap String
copy_field field none result = result
copy_field field (some v) result = JsMap.set field v result

unfoldable pick_fields_into : JsMap String → List String → JsMap String → JsMap String
pick_fields_into data' [] result = result
pick_fields_into data' (field ∷ fields) result =
    pick_fields_into data' fields (copy_field field (JsMap.get field data') result)

unfoldable pub pick_fields : JsMap String → List String → JsMap String
unfolding pick_fields_into
pick_fields data' fields = pick_fields_into data' fields []

abbrev pub eta_fields : List String
eta_fields = "eta" ∷ "arrival_time" ∷ "estimated_arrival" ∷ "id" ∷ "type" ∷ []

abbrev pub free_busy_fields : List String
free_busy_fields = "status" ∷ "free_busy" ∷ "start_time" ∷ "end_time" ∷ "id" ∷ "type" ∷ []

unfoldable pub filter_by_tier : JsMap String → String → Option (JsMap String)
unfolding pick_fields
filter_by_tier data' tier =
    if is_restricted tier
    then none
    else if tier == "summary"
    then some (JsMap.delete "body" data')
    else if tier == "eta_only"
    then some (pick_fields data' eta_fields)
    else if tier == "free_busy"
    then some (pick_fields data' free_busy_fields)
    else some data'

pub record TieredPayload : Type 0 where
  pub full : JsMap String
  pub summary : JsMap String

unfoldable pub build_tiered_payload : JsMap String → TieredPayload
build_tiered_payload data' = record { full = data'; summary = JsMap.delete "body" data' }

unfoldable pub select_payload_tier : TieredPayload → String → Option (JsMap String)
unfolding pick_fields
select_payload_tier payload tier =
    if is_restricted tier
    then none
    else if tier == "summary"
    then some payload.summary
    else if tier == "eta_only"
    then some (pick_fields payload.full eta_fields)
    else if tier == "free_busy"
    then some (pick_fields payload.full free_busy_fields)
    else some payload.full

get-pick_fields_into :
    (data' : JsMap String) (k : String) (fields : List String) (result : JsMap String)
    → JsMap.get k (pick_fields_into data' fields result) ≡ (
        if JsSet.has k fields
        then elim (JsMap.get k data') [ none ↦ JsMap.get k result | some v ↦ some v ]
        else JsMap.get k result)
unfolding pick_fields_into JsSet.has
get-pick_fields_into data' k [] result = refl
get-pick_fields_into data' k (f ∷ fs) result = elim (Option-cases (JsMap.get f data')) [
  | inl gone ↦ ground (arith, get-pick_fields_into data' k fs result, eq_iff f k, eq_iff k f)
  | inr (v, found) ↦ ground (
    arith,
    get-pick_fields_into data' k fs (JsMap.set f v result),
    get-set f k v result,
    eq_iff f k,
    eq_iff k f,
  )
]

get-pick_fields :
    (data' : JsMap String) (k : String) (fields : List String)
    → JsMap.get k (pick_fields data' fields)
      ≡ (if JsSet.has k fields then JsMap.get k data' else none)
unfolding pick_fields JsMap.get
get-pick_fields data' k fields =
    ground (arith, get-pick_fields_into data' k fields [], Option-cases (JsMap.get k data'))

-- The fields of a payload that a tier lets through.
abbrev pub passes : String → String → Bool
passes tier field =
    if is_restricted tier
    then false
    else if tier == "summary"
    then not (field == "body")
    else if tier == "eta_only"
    then JsSet.has field eta_fields
    else if tier == "free_busy"
    then JsSet.has field free_busy_fields
    else true

abbrev pub field_of : String → Option (JsMap String) → Option String
field_of k none = none
field_of k (some data') = JsMap.get k data'

-- Choosing from the payload that is built once for all recipients gives what filtering for the tier
-- gives: nothing exactly for the tiers none and locked, and else exactly the fields that the
-- tier lets through, unchanged.
pub select-build :
    (data' : JsMap String) (tier : String)
    → (select_payload_tier (build_tiered_payload data') tier ≡ filter_by_tier data' tier)
      × (is_some (filter_by_tier data' tier) ≡ not (is_restricted tier))
      × ((k : String)
          → field_of k (filter_by_tier data' tier)
            ≡ (if passes tier k then JsMap.get k data' else none))
unfolding select_payload_tier build_tiered_payload filter_by_tier
select-build data' tier = (
  ground arith,
  ground arith,
  λ k. ground (
    arith,
    get-pick_fields data' k eta_fields,
    get-pick_fields data' k free_busy_fields,
    get-delete "body" k data',
    eq_iff "body" k,
    eq_iff k "body",
  ),
)
