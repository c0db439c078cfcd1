-- ===== src/Workflow/Query.antt =====
-- packages/core/src/workflow/repository.ts, `InMemoryWorkflowRepository`: the listings, and the
-- lookup of the query that a response answers. `parse` is `JSON.parse`.
use dina_mobile.Prelude.{
  ℕ, String, Bool, false, not, Option, none, some, List, [], ◌∷◌, ◌++◌, ◌==◌, ◌&&◌, ◌||◌, keep,
  take, sort_by, if◌then◌else◌, or_default, Result, ok, err,
}
use text.Mathlib.Text.{starts_with}
use dina_mobile.JsMap
use dina_mobile.JsMap.{JsMap}
use dina_mobile.Workflow.Domain.{
  State, created, running, queued, pending_approval, WorkflowTask, Json, Parsed, malformed,
  null_value, fields, string_or_empty, same_state,
}
use dina_mobile.Workflow.Repo.{Repo, RepoError, duplicate_correlation, type_error, holds}
use dina_mobile.Workflow.Lease.{is_past}

unfoldable pub list_by_kind_and_state : String → State → ℕ → Repo → List WorkflowTask
unfolding same_state
list_by_kind_and_state kind state limit r = take limit (
    sort_by (λ t. t.created_at)
      (keep (λ t. t.kind == kind && same_state t.status state) (JsMap.values r.tasks)))

abbrev has_stash_prefix : Option String → String → Bool
has_stash_prefix none prefix = false
has_stash_prefix (some s) prefix = starts_with s prefix

unfoldable pub list_tasks_with_stash_prefix : String → ℕ → Repo → List WorkflowTask
list_tasks_with_stash_prefix prefix limit r = take limit (
    sort_by (λ t. t.updated_at)
      (keep (λ t. has_stash_prefix t.internal_stash prefix) (JsMap.values r.tasks)))

unfoldable pub expiring_approval : ℕ → WorkflowTask → Bool
unfolding same_state
expiring_approval now_sec t =
    t.kind == "approval"
    && (same_state t.status pending_approval || same_state t.status queued)
    && is_past t.expires_at now_sec

unfoldable pub list_expiring_approval_tasks : ℕ → ℕ → Repo → List WorkflowTask
unfolding expiring_approval
list_expiring_approval_tasks now_sec limit r = take limit (
    sort_by (λ t. or_default t.expires_at 0)
      (keep (expiring_approval now_sec) (JsMap.values r.tasks)))

-- A service query that waits for its response.
unfoldable pub open_query : String → ℕ → WorkflowTask → Bool
unfolding same_state
open_query query_id now_sec t =
    t.kind == "service_query"
    && holds t.correlation_id query_id
    && (same_state t.status created || same_state t.status running)
    && not (is_past t.expires_at now_sec)

-- The test on the number of matches.
only_match : List WorkflowTask → Result RepoError (Option WorkflowTask)
only_match [] = ok none
only_match (t ∷ []) = ok (some t)
only_match (t ∷ u ∷ rest) = err duplicate_correlation

unfoldable pub matches_payload : String → String → JsMap Json → Bool
matches_payload peer_did capability p =
    string_or_empty (JsMap.get "to_did" p) == peer_did
    && string_or_empty (JsMap.get "capability" p) == capability

module _ (parse : String → Parsed) (peer_did capability : String) where
  -- The loop over the candidates. Reading a field of `null` throws.
  unfoldable pub matched :
      List WorkflowTask → List WorkflowTask → Result RepoError (Option WorkflowTask)
  unfolding matches_payload only_match
  matched found [] = only_match found
  matched found (t ∷ ts) = elim (parse t.payload) [
    | malformed ↦ matched found ts
    | null_value ↦ err type_error
    | fields p ↦
        matched (if matches_payload peer_did capability p then found ++ t ∷ [] else found) ts
  ]

  unfoldable pub match_payload_tuple : List WorkflowTask → Result RepoError (Option WorkflowTask)
  unfolding matched
  match_payload_tuple candidates = matched [] candidates

unfoldable pub find_service_query_task :
    (String → Parsed) → String → String → String → ℕ → Repo → Result RepoError (Option WorkflowTask)
unfolding open_query match_payload_tuple
find_service_query_task parse query_id peer_did capability now_sec r =
    if query_id == "" || peer_did == "" || capability == ""
    then ok none
    else match_payload_tuple parse peer_did capability
        (keep (open_query query_id now_sec) (JsMap.values r.tasks))
