-- ===== src/Service/Bodies.antt =====
-- packages/core/src/d2d/service_bodies.ts: the validators of `service.query` and `service.response`
-- bodies. A body is what `JSON.parse` returns. A number is known by its sign, its whole thousandths
-- and whether more follows; arrays and objects inside a body are not looked into.
use dina_mobile.Prelude.{
  ℕ, ◌+◌, ◌*◌, String, Bool, true, false, not, ◌&&◌, ◌||◌, Option, none, some, nat_eq, ltb, ◌==◌,
  if◌then◌else◌, Result, ok, err, [],
}
use dina_mobile.JsMap
use dina_mobile.JsMap.{JsMap}

pub data Value : Type 0 where
  null : Value
  boolean : Bool → Value
  number : Bool → ℕ → Bool → Value
  infinite : Value
  text : String → Value
  composite : Value

pub data Json : Type 0 where
  object : JsMap Value → Json
  array : Json
  scalar : Value → Json

abbrev pub max_service_ttl : ℕ
max_service_ttl = 300

-- The first invariant that a body violates.
pub data BodyError : Type 0 where
  not_an_object query_id_required capability_required params_required status_required : BodyError
  unknown_status ttl_required ttl_out_of_range schema_hash_not_text : BodyError

-- The fields of an object; an array has none of those that are read.
unfoldable pub fields_of : Json → Option (JsMap Value)
fields_of (object fields) = some fields
fields_of array = some []
fields_of (scalar v) = none

-- `typeof v === 'string' && v !== ''`
unfoldable pub nonempty_text : Option Value → Option String
nonempty_text (some (text s)) = if s == "" then none else some s
nonempty_text (some v) = none
nonempty_text none = none

-- Neither undefined nor null.
unfoldable pub is_present : Option Value → Bool
is_present none = false
is_present (some null) = false
is_present (some v) = true

-- The milliseconds of a finite number of seconds, with its sign and whether more follows.
unfoldable pub finite_ttl : Option Value → Option (Bool × ℕ × Bool)
finite_ttl (some (number negative millis more)) = some (negative, millis, more)
finite_ttl (some v) = none
finite_ttl none = none

-- `ttl <= 0 || ttl > MAX_SERVICE_TTL`
unfoldable pub ttl_outside : Bool × ℕ × Bool → Bool
ttl_outside (negative, millis, more) =
    negative
    || (nat_eq millis 0 && not more)
    || ltb (max_service_ttl * 1000) millis
    || (nat_eq millis (max_service_ttl * 1000) && more)

-- What the callers read of a body.
pub record ServiceBody : Type 0 where
  pub query_id : String
  pub capability : String
  pub ttl_ms : ℕ

-- The checks of the time to live, which both validators end with.
unfoldable pub validate_ttl : String → String → Option Value → Result BodyError ServiceBody
unfolding finite_ttl ttl_outside
validate_ttl query_id capability ttl = elim (finite_ttl ttl) [
  | none ↦ err ttl_required
  | some (negative, millis, more) ↦
      if ttl_outside (negative, millis, more)
      then err ttl_out_of_range
      else ok (record { query_id = query_id; capability = capability; ttl_ms = millis })
]

-- `schema_hash !== undefined && typeof schema_hash !== 'string'`
unfoldable pub schema_hash_bad : Option Value → Bool
schema_hash_bad none = false
schema_hash_bad (some (text s)) = false
schema_hash_bad (some v) = true

unfoldable pub check_schema_hash :
    Option Value → Result BodyError ServiceBody → Result BodyError ServiceBody
unfolding schema_hash_bad
check_schema_hash schema_hash (err e) = err e
check_schema_hash schema_hash (ok body) =
    if schema_hash_bad schema_hash then err schema_hash_not_text else ok body

unfoldable pub validate_service_query_body : Json → Result BodyError ServiceBody
unfolding fields_of nonempty_text is_present validate_ttl check_schema_hash
validate_service_query_body body = elim (fields_of body) [
  | none ↦ err not_an_object
  | some b ↦ elim (nonempty_text (JsMap.get "query_id" b)) [
    | none ↦ err query_id_required
    | some query_id ↦ elim (nonempty_text (JsMap.get "capability" b)) [
      | none ↦ err capability_required
      | some capability ↦
          if not (is_present (JsMap.get "params" b))
          then err params_required
          else check_schema_hash (JsMap.get "schema_hash" b)
              (validate_ttl query_id capability (JsMap.get "ttl_seconds" b))
    ]
  ]
]

unfoldable pub is_valid_status : String → Bool
is_valid_status status = status == "success" || status == "unavailable" || status == "error"

unfoldable pub validate_service_response_body : Json → Result BodyError ServiceBody
unfolding fields_of nonempty_text is_valid_status validate_ttl
validate_service_response_body body = elim (fields_of body) [
  | none ↦ err not_an_object
  | some b ↦ elim (nonempty_text (JsMap.get "query_id" b)) [
    | none ↦ err query_id_required
    | some query_id ↦ elim (nonempty_text (JsMap.get "capability" b)) [
      | none ↦ err capability_required
      | some capability ↦ elim (nonempty_text (JsMap.get "status" b)) [
        | none ↦ err status_required
        | some status ↦
            if not (is_valid_status status)
            then err unknown_status
            else validate_ttl query_id capability (JsMap.get "ttl_seconds" b)
      ]
    ]
  ]
]

-- True is the error: `created_time` is a finite number of seconds.
unfoldable pub validate_future_skew : ℕ → ℕ → ℕ → Bool
validate_future_skew created_time now_unix max_skew_seconds =
    ltb (now_unix + max_skew_seconds) created_time
