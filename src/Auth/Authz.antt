-- ===== src/Auth/Authz.antt =====
-- packages/core/src/auth/authz.ts: which caller may use which path.
use dina_mobile.Prelude.{String, Bool, true, false, ◌&&◌, ◌||◌, List, [], ◌∷◌, if◌then◌else◌}
use Prim.Native.Char.{code}
use dina_mobile.Prelude.{nat_eq}

pub data CallerType : Type 0 where
  brain admin connector device agent : CallerType

pub record AuthzRule : Type 0 where
  pub prefix : String
  pub allowed : List CallerType

abbrev rule : String → List CallerType → AuthzRule
rule prefix allowed = record { prefix = prefix; allowed = allowed }

unfoldable pub authz_rules : List AuthzRule
authz_rules =
    rule "/v1/vault/store/batch" (brain ∷ [])
    ∷ rule "/v1/vault/store" (brain ∷ [])
    ∷ rule "/v1/vault/query" (brain ∷ device ∷ agent ∷ [])
    ∷ rule "/v1/vault/item/" (brain ∷ device ∷ [])
    ∷ rule "/v1/vault/kv/" (brain ∷ device ∷ [])
    ∷ rule "/v1/staging/ingest" (brain ∷ connector ∷ [])
    ∷ rule "/v1/staging/claim" (brain ∷ [])
    ∷ rule "/v1/staging/resolve" (brain ∷ [])
    ∷ rule "/v1/staging/fail" (brain ∷ [])
    ∷ rule "/v1/staging/extend-lease" (brain ∷ [])
    ∷ rule "/v1/persona/unlock" (admin ∷ [])
    ∷ rule "/v1/persona/lock" (admin ∷ [])
    ∷ rule "/v1/personas" (admin ∷ brain ∷ device ∷ [])
    ∷ rule "/v1/did" (admin ∷ brain ∷ [])
    ∷ rule "/v1/devices" (admin ∷ [])
    ∷ rule "/v1/export" (admin ∷ [])
    ∷ rule "/v1/import" (admin ∷ [])
    ∷ rule "/v1/approvals" (admin ∷ device ∷ [])
    ∷ rule "/v1/pii/" (brain ∷ [])
    ∷ rule "/v1/audit/" (admin ∷ brain ∷ [])
    ∷ rule "/v1/contacts" (admin ∷ brain ∷ [])
    ∷ rule "/v1/reminder" (admin ∷ brain ∷ device ∷ [])
    ∷ rule "/v1/reminders" (admin ∷ brain ∷ device ∷ [])
    ∷ rule "/v1/notify" (brain ∷ [])
    ∷ rule "/v1/msg/" (brain ∷ [])
    ∷ rule "/v1/service/" (brain ∷ admin ∷ [])
    ∷ rule "/v1/workflow/tasks/" (brain ∷ admin ∷ agent ∷ [])
    ∷ rule "/v1/workflow/" (brain ∷ admin ∷ [])
    ∷ rule "/api/v1/ask" (device ∷ admin ∷ brain ∷ [])
    ∷ rule "/api/v1/remember" (device ∷ admin ∷ brain ∷ [])
    ∷ rule "/healthz" (brain ∷ admin ∷ connector ∷ device ∷ agent ∷ [])
    ∷ []

-- What is left of a path after a prefix, by characters; `slash` is whether the prefix ended with '/'.
-- The end of the prefix decides: the path ends, or the prefix ended with '/', or the path goes on
-- with '/'.
unfoldable pub ends_at_boundary : Bool → String → Bool
ends_at_boundary slash String.[] = true
ends_at_boundary slash (String.◌∷◌ c rest) = slash || nat_eq (code c) b'/'

unfoldable pub has_path_prefix_from : Bool → String → String → Bool
unfolding ends_at_boundary
has_path_prefix_from slash path String.[] = ends_at_boundary slash path
has_path_prefix_from slash String.[] (String.◌∷◌ p prefix) = false
has_path_prefix_from slash (String.◌∷◌ c path) (String.◌∷◌ p prefix) =
    nat_eq (code c) (code p) && has_path_prefix_from (nat_eq (code p) b'/') path prefix

unfoldable pub has_path_prefix : String → String → Bool
has_path_prefix path prefix = has_path_prefix_from false path prefix

unfoldable pub caller_eq : CallerType → CallerType → Bool
caller_eq brain brain = true
caller_eq admin admin = true
caller_eq connector connector = true
caller_eq device device = true
caller_eq agent agent = true
caller_eq a b = false

unfoldable pub allows : CallerType → List CallerType → Bool
unfolding caller_eq
allows caller [] = false
allows caller (c ∷ cs) = caller_eq caller c || allows caller cs

unfoldable pub authorized_by : CallerType → String → List AuthzRule → Bool
authorized_by caller path [] = false
authorized_by caller path (r ∷ rules) =
    let later = authorized_by caller path rules in
    if has_path_prefix path r.prefix then allows caller r.allowed else later

unfoldable pub is_authorized : CallerType → String → Bool
is_authorized caller path = authorized_by caller path authz_rules
