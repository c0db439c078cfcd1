-- ===== src/Service/Tests.antt =====
-- Tests of packages/core/src/service, and the theorems at concrete windows.
use dina_mobile.Service.OneShot.{window_step}
use dina_mobile.Prelude.{String, List, ℕ, true, false, [], ◌∷◌, ◌≡◌, refl, ok, err}
use dina_mobile.JsMap
use dina_mobile.Service.QueryWindow.{QueryWindow, window_key, reserve, is_expired, can_reserve}
use dina_mobile.Service.Bodies.{Json, object, Value, validate_service_query_body, ttl_out_of_range}
use dina_mobile.Service.OneShot.{
  WindowOp, op_reserve, op_release, op_commit, total, reserves, gives_back,
}

abbrev window : QueryWindow
window =
    (
      window_key "did:a" "q1" "eta",
      record { capability = "eta"; expires_at = 500; reserved = false },
    )
    ∷ []

abbrev query : ℕ → Json
query millis = object (
    ("query_id", Value.text "q1")
    ∷ ("capability", Value.text "eta")
    ∷ ("params", Value.composite)
    ∷ ("ttl_seconds", Value.number false millis false)
    ∷ [])

query_accepted :
    validate_service_query_body (query 60000)
    ≡ ok (record { query_id = "q1"; capability = "eta"; ttl_ms = 60000 })
unfolding validate_service_query_body JsMap.get
query_accepted = refl

query_too_long : validate_service_query_body (query 300001) ≡ err ttl_out_of_range
unfolding validate_service_query_body JsMap.get
query_too_long = refl

abbrev eta_key : String
eta_key = window_key "did:a" "q1" "eta"

-- The window is reserved, given back, reserved, committed, and asked for again.
abbrev calls : List WindowOp
calls =
    op_reserve "did:a" "q1" "eta" 400
    ∷ op_release "did:a" "q1" "eta"
    ∷ op_reserve "did:a" "q1" "eta" 401
    ∷ op_commit "did:a" "q1" "eta"
    ∷ op_reserve "did:a" "q1" "eta" 402
    ∷ []

reserved_twice : total (reserves eta_key) calls window ≡ 2
unfolding total reserves window_key reserve JsMap.get window_step JsMap.set JsMap.delete
reserved_twice = refl

given_back_once : total (gives_back eta_key) calls window ≡ 1
unfolding total gives_back window_key JsMap.get window_step JsMap.set
given_back_once = refl

reserved : (reserve "did:a" "q1" "eta" 400 window).0 ≡ true
unfolding reserve can_reserve JsMap.get window_key is_expired
reserved = refl
