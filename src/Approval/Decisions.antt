-- ===== src/Approval/Decisions.antt =====
-- packages/core/src/approval/manager.ts: what becomes of a denial, and of a session's approvals.
use dina_mobile.Prelude.{
  ◌+◌, String, false, not, none, some, List, [], ◌∷◌, ◌≡◌, inl, inr, arith, ◌&&◌, eq_iff, keep,
  length, if◌then◌else◌, Option-cases,
}
use dina_mobile.JsMap
use dina_mobile.JsMap.{
  JsMap, IsKeyed, get-set, get-delete, get-retain, IsKeyed-set, IsKeyed-delete, IsKeyed-retain,
}
use dina_mobile.Approval.Manager.{
  denied, is_granted, is_session, ApprovalRequest, Requests, requested, request_approval, granted,
  approve_request, deny_request, is_approved, consume_single, is_session_grant, revoke_session,
}
use dina_mobile.Approval.Grants.{
  ApprovalOp, op_request, op_approve, op_deny, op_consume, op_revoke, apply, apply-IsKeyed,
}

unfoldable pub apply_all : List ApprovalOp → Requests → Requests
apply_all [] rs = rs
apply_all (op ∷ ops) rs = apply_all ops (apply op rs)

-- What was denied stays: no call changes it.
apply-denied :
    (id : String) (op : ApprovalOp) (r : ApprovalRequest) (rs : Requests)
    → IsKeyed rs
    → r.status ≡ denied
    → JsMap.get id rs ≡ some r
    → JsMap.get id (apply op rs) ≡ some r
unfolding apply JsMap.has
apply-denied id (op_request req) r rs keyed refused found =
    unfold request_approval in
    ground (arith, get-set req.id id (requested req) rs, eq_iff req.id id)
apply-denied id (op_approve k scope by) r rs keyed refused found =
    unfold approve_request in
    (elim (Option-cases (JsMap.get k rs)) [
      | inl gone ↦ ground arith
      | inr (q, there) ↦ ground (arith, get-set k id (granted scope by q) rs, eq_iff k id)
    ])
apply-denied id (op_deny k) r rs keyed refused found =
    unfold deny_request in
    (elim (Option-cases (JsMap.get k rs)) [
      | inl gone ↦ ground arith
      | inr (q, there) ↦ ground (arith, get-set k id (record q { status = denied }) rs, eq_iff k id)
    ])
apply-denied id (op_consume k) r rs keyed refused found =
    unfold consume_single in
    (elim (Option-cases (JsMap.get k rs)) [
      | inl gone ↦ ground arith
      | inr (q, there) ↦ ground (arith, get-delete k id rs, eq_iff k id)
    ])
apply-denied id op_revoke r rs keyed refused found =
    unfold revoke_session is_session_grant in
    ground (arith, get-retain (λ q. not (is_session_grant q)) id rs keyed)

-- In requests with each id once, a request that was denied stays as it is and is not approved, whatever
-- calls follow.
pub denied_stays :
    (id : String) (ops : List ApprovalOp) (r : ApprovalRequest) (rs : Requests)
    → IsKeyed rs
    → r.status ≡ denied
    → JsMap.get id rs ≡ some r
    → (JsMap.get id (apply_all ops rs) ≡ some r) × (is_approved id (apply_all ops rs) ≡ false)
unfolding apply_all is_approved
denied_stays id [] r rs keyed refused found = (found, ground arith)
denied_stays id (op ∷ ops) r rs keyed refused found =
    denied_stays id ops r (apply op rs) (apply-IsKeyed op rs keyed) refused
      (apply-denied id op r rs keyed refused found)

size-revoked :
    (rs : Requests)
    → length (keep is_session_grant (JsMap.values rs))
        + JsMap.size (JsMap.retain (λ r. not (is_session_grant r)) rs)
      ≡ JsMap.size rs
unfolding JsMap.values JsMap.retain
size-revoked [] = omega arith
size-revoked ((k, r) ∷ rs) = ground (arith, size-revoked rs)

-- In requests with each id once, ending the session removes exactly the requests that are approved for the
-- session, leaves every other one, those approved for a single use among them, and returns how
-- many are gone.
pub revoke_session_exact :
    (id : String) (rs : Requests)
    → IsKeyed rs
    → let (count, after) = revoke_session rs in
      (JsMap.get id after ≡ elim (JsMap.get id rs) [
        | none ↦ none
        | some r ↦ if is_granted r.status && is_session r.input.scope then none else some r
      ])
      × (count + JsMap.size after ≡ JsMap.size rs)
unfolding revoke_session
revoke_session_exact id rs keyed = (
  unfold is_session_grant in
      ground (
        arith,
        get-retain (λ r. not (is_session_grant r)) id rs keyed,
        Option-cases (JsMap.get id rs),
      ),
  size-revoked rs,
)
