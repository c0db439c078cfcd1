-- ===== src/Auth/Middleware.antt =====
-- packages/core/src/auth/middleware.ts: the steps that a request passes. `now` is in milliseconds.
-- Reading a timestamp, the key in a did:key DID and the check of a signature are arguments.
use Prim.Native.Char.{code}
use dina_mobile.Prelude.{
  ℕ, ◌+◌, ◌*◌, ◌-◌, String, Bool, true, false, not, ◌&&◌, Option, none, some, ◌==◌, nat_eq, leb,
  if◌then◌else◌, max, min, List,
}
use dina_mobile.JsMap
use dina_mobile.JsMap.{JsMap}
use dina_mobile.Auth.Nonce.{NonceCache, check}
use dina_mobile.Auth.RateLimit.{Limiter, allow}
use dina_mobile.Auth.Authz as Authz
use dina_mobile.Auth.Authz.{is_authorized}
use dina_mobile.Auth.CallerType.{
  Callers, CallerIdentity, CallerKind, service, device, agent, unknown, resolve_caller_type,
}

pub record AuthRequest : Type 0 where
  pub method : String
  pub path : String
  pub query : String
  pub body : List ℕ
  pub headers : JsMap String

pub data Rejection : Type 0 where
  at_headers at_timestamp at_nonce at_signature at_rate_limit at_authorization : Rejection

-- What comes of a request; `thrown` is the error of a timestamp that cannot be read.
pub data AuthResult : Type 0 where
  authenticated : CallerIdentity → AuthResult
  rejected : Rejection → AuthResult
  thrown : AuthResult

-- ASCII lower case.
unfoldable pub lower : ℕ → ℕ
lower c = if leb b'A' c && leb c b'Z' then c + 32 else c

-- `name.toLowerCase() === word` for a word of the letters a to z but k, which no other character
-- becomes in lower case.
unfoldable pub lower_is : String → String → Bool
unfolding lower
lower_is String.[] String.[] = true
lower_is String.[] (String.◌∷◌ w word) = false
lower_is (String.◌∷◌ c name) String.[] = false
lower_is (String.◌∷◌ c name) (String.◌∷◌ w word) =
    nat_eq (lower (code c)) (code w) && lower_is name word

unfoldable pub map_to_authz_role : CallerKind → Option String → Option Authz.CallerType
unfolding lower_is
map_to_authz_role device name = some Authz.device
map_to_authz_role agent name = some Authz.agent
map_to_authz_role unknown name = none
map_to_authz_role service none = none
map_to_authz_role service (some name) =
    if lower_is name "brain"
    then some Authz.brain
    else if lower_is name "admin"
    then some Authz.admin
    else if lower_is name "connector"
    then some Authz.connector
    else none

unfoldable pub starts_with : String → String → Bool
starts_with text String.[] = true
starts_with String.[] (String.◌∷◌ p prefix) = false
starts_with (String.◌∷◌ c text) (String.◌∷◌ p prefix) =
    nat_eq (code c) (code p) && starts_with text prefix

abbrev pub timestamp_window_seconds : ℕ
timestamp_window_seconds = 300

-- A header, where an empty one counts as missing.
unfoldable pub header : String → AuthRequest → Option String
header name req = elim (JsMap.get name req.headers) [
  | none ↦ none
  | some v ↦ if v == "" then none else some v
]

pub record AuthState (Key : Type 0) : Type 0 where
  pub nonce_cache : NonceCache
  pub rate_limiter : Limiter
  pub public_key_resolver : Option (String → Option Key)
  pub callers : Callers

-- `parse_time` is `parseRFC3339` in milliseconds, with none where it throws.
unfoldable pub is_timestamp_valid : (String → Option ℕ) → String → ℕ → Option Bool
is_timestamp_valid parse_time timestamp now = elim (parse_time timestamp) [
  | none ↦ none
  | some ts ↦ some (leb (max now ts - min now ts) (timestamp_window_seconds * 1000))
]

module _ {Key : Type 0} (parse_time : String → Option ℕ) (extract_public_key : String → Option Key)
    (verify : AuthRequest → String → String → String → Key → Bool) where
  unfoldable pub public_key_of : String → AuthState Key → Option Key
  unfolding starts_with
  public_key_of did s = elim s.public_key_resolver [
    | some resolver ↦ resolver did
    | none ↦ if starts_with did "did:key:" then extract_public_key did else none
  ]

  -- Steps 6 and 7.
  unfoldable pub authorize : String → AuthRequest → AuthState Key → AuthResult
  unfolding map_to_authz_role
  authorize did req s =
      let identity = resolve_caller_type did (JsMap.get "X-Agent-DID" req.headers) s.callers in
      elim (map_to_authz_role identity.caller_type identity.name) [
        | none ↦ rejected at_authorization
        | some role ↦
            if not (is_authorized role req.path)
            then rejected at_authorization
            else authenticated identity
      ]

  -- Steps 5 to 7.
  unfoldable pub limit_and_authorize :
      String → ℕ → AuthRequest → AuthState Key → AuthResult × AuthState Key
  unfolding authorize
  limit_and_authorize did now req s =
      let (allowed, limiter) = allow did now s.rate_limiter in
      let s' : AuthState Key = record s { rate_limiter = limiter } in
      if not allowed then (rejected at_rate_limit, s') else (authorize did req s', s')

  -- Steps 4 to 7.
  unfoldable pub verify_and_authorize :
      String
      → String
      → String
      → String
      → ℕ
      → AuthRequest
      → AuthState Key
      → AuthResult × AuthState Key
  verify_and_authorize did timestamp nonce signature now req s = elim (public_key_of did s) [
    | none ↦ (rejected at_signature, s)
    | some key ↦
        if not (verify req timestamp nonce signature key)
        then (rejected at_signature, s)
        else limit_and_authorize did now req s
  ]

  -- Steps 2 to 7.
  unfoldable pub check_and_authorize :
      String
      → String
      → String
      → String
      → ℕ
      → AuthRequest
      → AuthState Key
      → AuthResult × AuthState Key
  unfolding is_timestamp_valid
  check_and_authorize did timestamp nonce signature now req s =
      elim (is_timestamp_valid parse_time timestamp now) [
        | none ↦ (thrown, s)
        | some current ↦
            if not current
            then (rejected at_timestamp, s)
            else (let (fresh, cache) = check nonce now s.nonce_cache in
                let s' : AuthState Key = record s { nonce_cache = cache } in
                if not fresh
                then (rejected at_nonce, s')
                else verify_and_authorize did timestamp nonce signature now req s')
      ]

  unfoldable pub authenticate_request : ℕ → AuthRequest → AuthState Key → AuthResult × AuthState Key
  authenticate_request now req s = elim (header "X-DID" req) [
    | none ↦ (rejected at_headers, s)
    | some did ↦ elim (header "X-Timestamp" req) [
      | none ↦ (rejected at_headers, s)
      | some timestamp ↦ elim (header "X-Nonce" req) [
        | none ↦ (rejected at_headers, s)
        | some nonce ↦ elim (header "X-Signature" req) [
          | none ↦ (rejected at_headers, s)
          | some signature ↦ check_and_authorize did timestamp nonce signature now req s
        ]
      ]
    ]
  ]
