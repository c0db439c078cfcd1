-- ===== src/Auth/Requests.antt =====
-- packages/core/src/auth/middleware.ts: what a request that gets through has passed.
use dina_mobile.Prelude.{
  ℕ, String, Bool, true, Option, some, ◌≡◌, arith, Bool-cases, Option-cases, inl, inr,
}
use dina_mobile.JsMap
use dina_mobile.Auth.Nonce.{check}
use dina_mobile.Auth.RateLimit.{allow}
use dina_mobile.Auth.Authz.{CallerType, is_authorized}
use dina_mobile.Auth.CallerType.{Callers, CallerIdentity, resolve_caller_type}
use dina_mobile.Auth.Middleware.{
  AuthRequest, AuthState, authenticated, map_to_authz_role, header, is_timestamp_valid,
  public_key_of, authorize, limit_and_authorize, verify_and_authorize, check_and_authorize,
  authenticate_request,
}

-- What an authorized caller is.
pub record IsAuthorized (did : String) (req : AuthRequest) (callers : Callers)
    (identity : CallerIdentity) : Type 0 where
  pub role : CallerType
  pub resolved : identity ≡ resolve_caller_type did (JsMap.get "X-Agent-DID" req.headers) callers
  pub mapped : map_to_authz_role identity.caller_type identity.name ≡ some role
  pub granted : is_authorized role req.path ≡ true

module _ {Key : Type 0} (parse_time : String → Option ℕ) (extract_public_key : String → Option Key)
    (verify : AuthRequest → String → String → String → Key → Bool) where
  -- Every step of the pipeline, passed.
  pub record IsPassed (now : ℕ) (req : AuthRequest) (s : AuthState Key) (identity : CallerIdentity)
      : Type 0 where
    pub did : String
    pub timestamp : String
    pub nonce : String
    pub signature : String
    pub key : Key
    pub has_did : header "X-DID" req ≡ some did
    pub has_timestamp : header "X-Timestamp" req ≡ some timestamp
    pub has_nonce : header "X-Nonce" req ≡ some nonce
    pub has_signature : header "X-Signature" req ≡ some signature
    pub current : is_timestamp_valid parse_time timestamp now ≡ some true
    pub fresh : (check nonce now s.nonce_cache).0 ≡ true
    pub known : public_key_of parse_time extract_public_key verify did s ≡ some key
    pub signed : verify req timestamp nonce signature key ≡ true
    pub within_limit : (allow did now s.rate_limiter).0 ≡ true
    pub authorized : IsAuthorized did req s.callers identity

  authorize-IsAuthorized :
      (did : String) (req : AuthRequest) (s : AuthState Key) (identity : CallerIdentity)
      → authorize parse_time extract_public_key verify did req s ≡ authenticated identity
      → IsAuthorized did req s.callers identity
  unfolding authorize
  authorize-IsAuthorized did req s identity h =
      let who = resolve_caller_type did (JsMap.get "X-Agent-DID" req.headers) s.callers in
      elim (Option-cases (map_to_authz_role who.caller_type who.name)) [
        | inl gone ↦ absurd (ground arith)
        | inr (role, found) ↦ elim (Bool-cases (is_authorized role req.path)) [
          | inr f ↦ absurd (ground arith)
          | inl t ↦ record {
            role = role;
            resolved = ground arith;
            mapped = ground arith;
            granted = t;
          }
        ]
      ]

  limit-inv :
      (did : String) (now : ℕ) (req : AuthRequest) (s : AuthState Key) (identity : CallerIdentity)
      → (limit_and_authorize parse_time extract_public_key verify did now req s).0
        ≡ authenticated identity
      → ((allow did now s.rate_limiter).0 ≡ true) × IsAuthorized did req s.callers identity
  unfolding limit_and_authorize
  limit-inv did now req s identity h = elim (Bool-cases (allow did now s.rate_limiter).0) [
    | inr f ↦ absurd (ground arith)
    | inl t ↦ (
      t,
      authorize-IsAuthorized did req (record s { rate_limiter = (allow did now s.rate_limiter).1 })
          identity (ground arith),
    )
  ]

  verify-inv :
      (did timestamp nonce signature : String) (now : ℕ) (req : AuthRequest) (s : AuthState Key)
      (identity : CallerIdentity)
      → (verify_and_authorize parse_time extract_public_key verify did timestamp nonce signature now
          req s).0
        ≡ authenticated identity
      → (key : Key) × (public_key_of parse_time extract_public_key verify did s ≡ some key)
        × (verify req timestamp nonce signature key ≡ true)
        × ((allow did now s.rate_limiter).0 ≡ true)
        × IsAuthorized did req s.callers identity
  unfolding verify_and_authorize
  verify-inv did timestamp nonce signature now req s identity h =
      elim (Option-cases (public_key_of parse_time extract_public_key verify did s)) [
        | inl gone ↦ absurd (ground arith)
        | inr (key, found) ↦ elim (Bool-cases (verify req timestamp nonce signature key)) [
          | inr f ↦ absurd (ground arith)
          | inl t ↦
              let (limit, who) = limit-inv did now req s identity (ground arith) in
              (key, found, t, limit, who)
        ]
      ]

  check-inv :
      (did timestamp nonce signature : String) (now : ℕ) (req : AuthRequest) (s : AuthState Key)
      (identity : CallerIdentity)
      → (check_and_authorize parse_time extract_public_key verify did timestamp nonce signature now
          req s).0
        ≡ authenticated identity
      → (is_timestamp_valid parse_time timestamp now ≡ some true)
        × ((check nonce now s.nonce_cache).0 ≡ true)
        × ((verify_and_authorize parse_time extract_public_key verify did timestamp nonce signature
              now req
              (record s { nonce_cache = (check nonce now s.nonce_cache).1 })).0
            ≡ authenticated identity)
  unfolding check_and_authorize
  check-inv did timestamp nonce signature now req s identity h =
      elim (Option-cases (is_timestamp_valid parse_time timestamp now)) [
        | inl gone ↦ absurd (ground arith)
        | inr (valid, read) ↦ elim (Bool-cases valid) [
          | inr f ↦ absurd (ground arith)
          | inl t ↦ elim (Bool-cases (check nonce now s.nonce_cache).0) [
            | inr f ↦ absurd (ground arith)
            | inl fresh ↦ (ground arith, fresh, ground arith)
          ]
        ]
      ]

  headers-inv :
      (now : ℕ) (req : AuthRequest) (s : AuthState Key) (identity : CallerIdentity)
      → (authenticate_request parse_time extract_public_key verify now req s).0
        ≡ authenticated identity
      → (did : String) × (timestamp : String) × (nonce : String) × (signature : String) × (header
            "X-DID" req
          ≡ some did)
        × (header "X-Timestamp" req ≡ some timestamp)
        × (header "X-Nonce" req ≡ some nonce)
        × (header "X-Signature" req ≡ some signature)
        × ((check_and_authorize parse_time extract_public_key verify did timestamp nonce signature
              now req s).0
            ≡ authenticated identity)
  unfolding authenticate_request
  headers-inv now req s identity h = elim (Option-cases (header "X-DID" req)) [
    | inl gone ↦ absurd (ground arith)
    | inr (did, a) ↦ elim (Option-cases (header "X-Timestamp" req)) [
      | inl gone ↦ absurd (ground arith)
      | inr (timestamp, b) ↦ elim (Option-cases (header "X-Nonce" req)) [
        | inl gone ↦ absurd (ground arith)
        | inr (nonce, c) ↦ elim (Option-cases (header "X-Signature" req)) [
          | inl gone ↦ absurd (ground arith)
          | inr (signature, d) ↦ (did, timestamp, nonce, signature, a, b, c, d, ground arith)
        ]
      ]
    ]
  ]

  -- A request that is authenticated has all four headers; its timestamp is within the window, its
  -- nonce is fresh, its signature is valid under the key of its DID, its rate limit is not used up,
  -- and the caller it is resolved to has a role that may use the path.
  pub authenticate_request-IsPassed :
      (now : ℕ) (req : AuthRequest) (s : AuthState Key) (identity : CallerIdentity)
      → (authenticate_request parse_time extract_public_key verify now req s).0
        ≡ authenticated identity
      → IsPassed now req s identity
  unfolding public_key_of
  authenticate_request-IsPassed now req s identity h =
      let (did, timestamp, nonce, signature, a, b, c, d, rest) = headers-inv now req s identity h in
      let (current, fresh, rest') =
        check-inv did timestamp nonce signature now req s identity rest in
      let (key, known, signed, limit, who) =
        verify-inv did timestamp nonce signature now req
          (record s { nonce_cache = (check nonce now s.nonce_cache).1 }) identity rest' in
      record {
        did = did;
        timestamp = timestamp;
        nonce = nonce;
        signature = signature;
        key = key;
        has_did = a;
        has_timestamp = b;
        has_nonce = c;
        has_signature = d;
        current = current;
        fresh = fresh;
        known = known;
        signed = signed;
        within_limit = limit;
        authorized = who;
      }
