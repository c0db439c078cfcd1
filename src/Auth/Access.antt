-- ===== src/Auth/Access.antt =====
-- packages/core/src/auth/authz.ts: what the rules leave to a caller.
use dina_mobile.Prelude.{
  String, true, false, List, [], ◌∷◌, ◌≡◌, ◌⊎◌, inl, inr, arith, if◌then◌else◌, any, Bool-cases,
}
use dina_mobile.Auth.Authz.{
  CallerType, connector, agent, AuthzRule, authz_rules, has_path_prefix, allows, authorized_by,
  is_authorized,
}

-- The prefixes of the rules that allow a caller.
prefixes_for : CallerType → List AuthzRule → List String
prefixes_for caller [] = []
prefixes_for caller (r ∷ rules) =
    let rest = prefixes_for caller rules in
    if allows caller r.allowed then r.prefix ∷ rest else rest

authorized_by-prefix :
    (caller : CallerType) (path : String) (rules : List AuthzRule)
    → authorized_by caller path rules ≡ true
    → any (has_path_prefix path) (prefixes_for caller rules) ≡ true
unfolding authorized_by prefixes_for
authorized_by-prefix caller path [] h = absurd cc
authorized_by-prefix caller path (r ∷ rules) h = elim (Bool-cases (has_path_prefix path r.prefix)) [
  | inl t ↦ ground arith
  | inr f ↦ ground (arith, authorized_by-prefix caller path rules)
]

-- An agent gets only paths under vault queries, workflow tasks and the health check; a connector only
-- those under the staging ingest and the health check. A path is under a prefix if it is the prefix
-- or goes on after it at a slash.
pub is_authorized-least :
    (path : String)
    → (is_authorized agent path ≡ false
        ⊎ (any (has_path_prefix path) ("/v1/vault/query" ∷ "/v1/workflow/tasks/" ∷ "/healthz" ∷ [])
            ≡ true))
      × (is_authorized connector path ≡ false
          ⊎ (any (has_path_prefix path) ("/v1/staging/ingest" ∷ "/healthz" ∷ []) ≡ true))
unfolding is_authorized prefixes_for authz_rules allows
is_authorized-least path = (
  elim (Bool-cases (is_authorized agent path)) [
    | inr f ↦ inl f
    | inl t ↦ inr (authorized_by-prefix agent path authz_rules t)
  ],
  elim (Bool-cases (is_authorized connector path)) [
    | inr f ↦ inl f
    | inl t ↦ inr (authorized_by-prefix connector path authz_rules t)
  ],
)
