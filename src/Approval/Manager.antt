-- ===== src/Approval/Manager.antt =====
-- packages/core/src/approval/manager.ts: the requests for approval and their lifecycle.
use dina_mobile.Prelude.{
  ℕ, String, Bool, true, false, not, Option, none, some, List, [], keep, length, if◌then◌else◌,
  ◌&&◌, Result, ok, err,
}
use dina_mobile.JsMap
use dina_mobile.JsMap.{JsMap}

pub data ApprovalStatus : Type 0 where
  pending approved denied : ApprovalStatus

abbrev pub is_pending : ApprovalStatus → Bool
is_pending pending = true
is_pending _ = false

abbrev pub is_granted : ApprovalStatus → Bool
is_granted approved = true
is_granted _ = false

pub data Scope : Type 0 where
  single session : Scope

abbrev pub is_single : Option Scope → Bool
is_single (some single) = true
is_single _ = false

abbrev pub is_session : Option Scope → Bool
is_session (some session) = true
is_session _ = false

-- A request before it has a status.
pub record RequestInput : Type 0 where
  pub id : String
  pub action : String
  pub requester_did : String
  pub persona : String
  pub reason : String
  pub preview : String
  pub scope : Option Scope
  pub approved_by : Option String
  pub created_at : ℕ

pub record ApprovalRequest : Type 0 where
  pub input : RequestInput
  pub status : ApprovalStatus

abbrev pub Requests : Type 0
Requests = JsMap ApprovalRequest

pub data ApprovalError : Type 0 where
  already_exists not_found : ApprovalError
  not_pending : ApprovalStatus → ApprovalError

abbrev pub requested : RequestInput → ApprovalRequest
requested req = record { input = req; status = pending }

unfoldable pub request_approval : RequestInput → Requests → Result ApprovalError String × Requests
request_approval req rs =
    if JsMap.has req.id rs
    then (err already_exists, rs)
    else (ok req.id, JsMap.set req.id (requested req) rs)

abbrev pub granted : Scope → String → ApprovalRequest → ApprovalRequest
granted scope approved_by req = record {
  input = record req.input { scope = some scope; approved_by = some approved_by };
  status = approved;
}

unfoldable pub approve_request :
    String → Scope → String → Requests → Result ApprovalError Unit × Requests
approve_request id scope approved_by rs = elim (JsMap.get id rs) [
  | none ↦ (err not_found, rs)
  | some req ↦
      if not (is_pending req.status)
      then (err (not_pending req.status), rs)
      else (ok tt, JsMap.set id (granted scope approved_by req) rs)
]

unfoldable pub deny_request : String → Requests → Result ApprovalError Unit × Requests
deny_request id rs = elim (JsMap.get id rs) [
  | none ↦ (err not_found, rs)
  | some req ↦
      if not (is_pending req.status)
      then (err (not_pending req.status), rs)
      else (ok tt, JsMap.set id (record req { status = denied }) rs)
]

unfoldable pub list_pending : Requests → List ApprovalRequest
list_pending rs = keep (λ r. is_pending r.status) (JsMap.values rs)

unfoldable pub get_request : String → Requests → Option ApprovalRequest
get_request id rs = JsMap.get id rs

unfoldable pub is_approved : String → Requests → Bool
is_approved id rs = elim (JsMap.get id rs) [ none ↦ false | some req ↦ is_granted req.status ]

unfoldable pub consume_single : String → Requests → Bool × Requests
consume_single id rs = elim (JsMap.get id rs) [
  | none ↦ (false, rs)
  | some req ↦
      if is_granted req.status && is_single req.input.scope
      then (true, JsMap.delete id rs)
      else (false, rs)
]

unfoldable pub is_session_grant : ApprovalRequest → Bool
is_session_grant req = is_granted req.status && is_session req.input.scope

unfoldable pub revoke_session : Requests → ℕ × Requests
unfolding is_session_grant
revoke_session rs = (
  length (keep is_session_grant (JsMap.values rs)),
  JsMap.retain (λ r. not (is_session_grant r)) rs,
)

abbrev pub reset_approval_manager : Requests
reset_approval_manager = []
