-- ===== src/Workflow/Service.antt =====
-- packages/core/src/workflow/service.ts, `WorkflowService`: the state, the validation of a new task
-- and the Response Bridge up to its send. The operations are in `Workflow/Lifecycle.antt`.
-- `parse` is `JSON.parse`; `stringify` is `JSON.stringify` of a bridge context.
use Prim.Native.String.{◌++◌ as ◌+++◌}
use dina_mobile.Prelude.{
  ℕ, String, Bool, true, false, not, Option, none, some, List, [], ◌∷◌, ◌++◌, ◌==◌, ◌||◌, any,
  if◌then◌else◌, Result, ok, err,
}
use dina_mobile.JsMap
use dina_mobile.JsMap.{JsMap}
use dina_mobile.Workflow.Domain.{
  State, created, pending, queued, pending_approval, scheduled, WorkflowTask, Details, Json, str,
  number, Parsed, malformed, null_value, fields, string_or_empty, is_allowed_origin,
}
use dina_mobile.Workflow.Repo.{Repo, RepoError, set_internal_stash}

pub record BridgeContext : Type 0 where
  pub task_id : String
  pub from_did : String
  pub query_id : String
  pub capability : String
  pub ttl_seconds : ℕ
  pub result_json : Details
  pub service_name : String

pub data ServiceError : Type 0 where
  validation : String → ServiceError
  transition_error : State → State → ServiceError
  conflict : RepoError → ServiceError
  type_error : ServiceError

-- `sends` is the list of calls of the bridge sender, oldest first.
pub record Service : Type 0 where
  pub repo : Repo
  pub bridge_wired : Bool
  pub bridge_in_flight : List String
  pub sends : List BridgeContext

-- A method returns or throws, and what it wrote before a throw stays written.
abbrev pub Exec : Type 0 → Type 0
Exec A = Service → Result ServiceError A × Service

pub record CreateInput : Type 0 where
  pub id : String
  pub kind : String
  pub description : String
  pub payload : String
  pub expires_at_sec : Option ℕ
  pub correlation_id : Option String
  pub parent_id : Option String
  pub proposal_id : Option String
  pub priority : Option String
  pub origin : Option String
  pub session_name : Option String
  pub idempotency_key : Option String
  pub policy : Option String
  pub initial_state : Option State

unfoldable pub is_valid_kind : String → Bool
is_valid_kind k =
    any (λ v. v == k)
      ("delegation" ∷ "approval" ∷ "service_query" ∷ "timer" ∷ "watch" ∷ "generic" ∷ [])

unfoldable pub is_valid_priority : String → Bool
is_valid_priority p = any (λ v. v == p) ("user_blocking" ∷ "normal" ∷ "background" ∷ [])

unfoldable pub is_valid_initial_state : State → Bool
is_valid_initial_state created = true
is_valid_initial_state pending = true
is_valid_initial_state queued = true
is_valid_initial_state pending_approval = true
is_valid_initial_state scheduled = true
is_valid_initial_state _ = false

-- The value is absent, or it passes.
abbrev pub absent_or : {A : Type 0} → (A → Bool) → Option A → Bool
absent_or p none = true
absent_or p (some a) = p a

-- The field that is rejected. The test on `expiresAtSec` always passes on a natural number.
unfoldable pub validate_input : CreateInput → Option String
validate_input input =
    if input.id == ""
    then some "id"
    else if not (is_valid_kind input.kind)
    then some "kind"
    else if not (absent_or is_valid_priority input.priority)
    then some "priority"
    else if not (absent_or is_allowed_origin input.origin)
    then some "origin"
    else if not (absent_or is_valid_initial_state input.initial_state)
    then some "initialState"
    else if input.payload == ""
    then some "payload"
    else none

-- `Set.add`
abbrev pub add_to : String → List String → List String
add_to k xs = if any (λ x. x == k) xs then xs else xs ++ k ∷ []

abbrev number_or : ℕ → Option Json → ℕ
number_or d (some (number n)) = n
number_or d _ = d

abbrev is_string : String → Option Json → Bool
is_string s (some (str t)) = t == s
is_string s _ = false

-- The context that a payload with the fields `p` gives; none where the bridge has nothing to send.
unfoldable pub bridge_context : WorkflowTask → Details → JsMap Json → Option BridgeContext
bridge_context task result_json p =
    let from_did = string_or_empty (JsMap.get "from_did" p) in
    let query_id = string_or_empty (JsMap.get "query_id" p) in
    let capability = string_or_empty (JsMap.get "capability" p) in
    if not (is_string "service_query_execution" (JsMap.get "type" p))
    then none
    else if from_did == "" || query_id == "" || capability == ""
    then none
    else some (record {
      task_id = task.id;
      from_did = from_did;
      query_id = query_id;
      capability = capability;
      ttl_seconds = number_or 60 (JsMap.get "ttl_seconds" p);
      result_json = result_json;
      service_name = string_or_empty (JsMap.get "service_name" p);
    })

module _ (parse : String → Parsed) (stringify : BridgeContext → String) where
  -- The stash, the claim and the call of the sender. The store's write does not throw.
  unfoldable pub start_bridge : ℕ → Option BridgeContext → Service → Service
  start_bridge now_ms none s = s
  start_bridge now_ms (some ctx) s = record s {
    repo =
        (set_internal_stash ctx.task_id (some ("bridge_pending:" +++ stringify ctx)) now_ms
          s.repo).0;
    bridge_in_flight = add_to ctx.task_id s.bridge_in_flight;
    sends = s.sends ++ ctx ∷ [];
  }

  -- Reading the type of a payload that is `null` throws.
  unfoldable pub bridge_service_query_completion : WorkflowTask → Details → ℕ → Exec Unit
  unfolding start_bridge bridge_context
  bridge_service_query_completion task result_json now_ms s =
      if not s.bridge_wired || not (task.kind == "delegation")
      then (ok tt, s)
      else elim (parse task.payload) [
        | malformed ↦ (ok tt, s)
        | null_value ↦ (err type_error, s)
        | fields p ↦ (ok tt, start_bridge now_ms (bridge_context task result_json p) s)
      ]
