-- ===== src/Auth/RequestTests.antt =====
-- Tests of packages/core/src/auth: paths, callers and a request on concrete data.
use dina_mobile.Auth.CallerType.{resolve_caller_type}
use dina_mobile.Auth.RateLimit.{allow}
use dina_mobile.Auth.Middleware.{limit_and_authorize}
use dina_mobile.Auth.Middleware.{public_key_of}
use dina_mobile.Auth.Middleware.{verify_and_authorize}
use dina_mobile.JsSet.{has}
use dina_mobile.Auth.Nonce.{check}
use dina_mobile.Auth.Middleware.{check_and_authorize}
use dina_mobile.JsMap.{get}
use dina_mobile.Auth.Middleware.{header}
use dina_mobile.Auth.Authz.{allows}
use dina_mobile.Auth.Authz.{authz_rules}
use dina_mobile.Auth.Authz.{authorized_by}
use dina_mobile.Auth.Authz.{has_path_prefix_from}
use dina_mobile.Prelude.{ℕ, String, Bool, true, false, Option, none, some, [], ◌∷◌, ◌≡◌, refl, ◌==◌}
use dina_mobile.Auth.Authz.{agent, is_authorized, has_path_prefix}
use dina_mobile.Auth.CallerType.{CallerIdentity, service}
use dina_mobile.Auth.Middleware.{AuthRequest, AuthState, authenticate_request, authenticated}
use dina_mobile.Auth.Requests.{IsPassed, authenticate_request-IsPassed}

store_boundary : has_path_prefix "/v1/vault/storefoo" "/v1/vault/store" ≡ false
unfolding has_path_prefix has_path_prefix_from
store_boundary = refl

agent_ingest : is_authorized agent "/v1/staging/ingest" ≡ false
unfolding is_authorized authorized_by authz_rules has_path_prefix has_path_prefix_from allows
agent_ingest = refl

agent_tasks : is_authorized agent "/v1/workflow/tasks/t1/claim" ≡ true
unfolding is_authorized authorized_by authz_rules has_path_prefix has_path_prefix_from allows
agent_tasks = refl

abbrev request : AuthRequest
request = record {
  method = "POST";
  path = "/v1/vault/store";
  query = "";
  body = [];
  headers =
      ("X-DID", "did:key:brain")
      ∷ ("X-Timestamp", "t")
      ∷ ("X-Nonce", "n1")
      ∷ ("X-Signature", "sig")
      ∷ [];
}

abbrev state : AuthState ℕ
state = record {
  nonce_cache = record {
    current = [];
    previous = [];
    last_rotation = 0;
    rotation_interval_ms = 300000;
    max_entries = 100;
  };
  rate_limiter = record {
    config = record { max_requests = 10; window_seconds = 60 };
    buckets = [];
  };
  public_key_resolver = none;
  callers = record {
    service_dids = ("did:key:brain", "Brain") ∷ [];
    device_dids = [];
    role_resolver = none;
  };
}

abbrev parse_time : String → Option ℕ
parse_time t = some 1000

abbrev extract : String → Option ℕ
extract did = some 7

abbrev verify : AuthRequest → String → String → String → ℕ → Bool
verify req timestamp nonce signature key = signature == "sig"

abbrev identity : CallerIdentity
identity = record { did = "did:key:brain"; caller_type = service; name = some "Brain" }

accepted :
    (authenticate_request parse_time extract verify 2000 request state).0 ≡ authenticated identity
unfolding authenticate_request header get check_and_authorize check has verify_and_authorize
    public_key_of limit_and_authorize allow resolve_caller_type is_authorized authorized_by
    authz_rules has_path_prefix has_path_prefix_from allows
accepted = refl

authenticate_request-IsPassed_example :
    IsPassed parse_time extract verify 2000 request state identity
authenticate_request-IsPassed_example =
    authenticate_request-IsPassed parse_time extract verify 2000 request state identity accepted
