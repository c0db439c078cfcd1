-- ===== src/Approval/Grants.antt =====
-- packages/core/src/approval/manager.ts: what an approval is good for.
use dina_mobile.Prelude.{
  ℕ, ◌+◌, ◌≤◌, String, Bool, true, false, not, Option, none, some, List, [], ◌∷◌, ◌≡◌, refl, inl,
  inr, arith, ◌==◌, ◌&&◌, eq_iff, Option-cases, ok, err,
}
use dina_mobile.JsMap
use dina_mobile.JsMap.{
  JsMap, IsKeyed, get-set, get-delete, get-retain, IsKeyed-set, IsKeyed-delete, IsKeyed-retain,
}
use dina_mobile.Approval.Manager.{
  denied, is_granted, Scope, RequestInput, ApprovalRequest, Requests, requested, request_approval,
  granted, approve_request, deny_request, consume_single, is_session_grant, revoke_session,
}

-- The calls that change the requests.
pub data ApprovalOp : Type 0 where
  op_request : RequestInput → ApprovalOp
  op_approve : String → Scope → String → ApprovalOp
  op_deny op_consume : String → ApprovalOp
  op_revoke : ApprovalOp

unfoldable pub apply : ApprovalOp → Requests → Requests
unfolding request_approval approve_request deny_request consume_single revoke_session
apply (op_request req) rs = (request_approval req rs).1
apply (op_approve id scope approved_by) rs = (approve_request id scope approved_by rs).1
apply (op_deny id) rs = (deny_request id rs).1
apply (op_consume id) rs = (consume_single id rs).1
apply op_revoke rs = (revoke_session rs).1

-- How often a single-use approval of `id` is consumed, and how often one is given, over some calls.
abbrev one_if : Bool → ℕ
one_if true = 1
one_if false = 0

abbrev consumed_by : String → ApprovalOp → Requests → ℕ
consumed_by id (op_consume k) rs = one_if (k == id && (consume_single k rs).0)
consumed_by id _ rs = 0

abbrev is_ok_approve : String → Scope → String → Requests → Bool
is_ok_approve k scope approved_by rs = elim (approve_request k scope approved_by rs).0 [
  | ok _ ↦ true
  | err _ ↦ false
]

abbrev approved_by_user : String → ApprovalOp → Requests → ℕ
approved_by_user id (op_approve k scope approved_by) rs =
    one_if (k == id && is_ok_approve k scope approved_by rs)
approved_by_user id _ rs = 0

unfoldable pub consumptions : String → List ApprovalOp → Requests → ℕ
consumptions id [] rs = 0
consumptions id (op ∷ ops) rs = consumed_by id op rs + consumptions id ops (apply op rs)

unfoldable pub approvals : String → List ApprovalOp → Requests → ℕ
approvals id [] rs = 0
approvals id (op ∷ ops) rs = approved_by_user id op rs + approvals id ops (apply op rs)

-- What may still be consumed of an approval that was given.
abbrev credit : Option ApprovalRequest → ℕ
credit none = 0
credit (some req) = one_if (is_granted req.status)

apply-credit :
    (id : String) (op : ApprovalOp) (rs : Requests)
    → IsKeyed rs
    → consumed_by id op rs + credit (JsMap.get id (apply op rs))
      ≤ approved_by_user id op rs + credit (JsMap.get id rs)
unfolding apply JsMap.has
apply-credit id (op_request req) rs keyed =
    unfold request_approval in
    ground (arith, get-set req.id id (requested req) rs, eq_iff req.id id)
apply-credit id (op_approve k scope by) rs keyed =
    unfold approve_request in
    (elim (Option-cases (JsMap.get k rs)) [
      | inl gone ↦ ground arith
      | inr (r, found) ↦ ground (arith, get-set k id (granted scope by r) rs, eq_iff k id)
    ])
apply-credit id (op_deny k) rs keyed =
    unfold deny_request in
    (elim (Option-cases (JsMap.get k rs)) [
      | inl gone ↦ ground arith
      | inr (r, found) ↦ ground (arith, get-set k id (record r { status = denied }) rs, eq_iff k id)
    ])
apply-credit id (op_consume k) rs keyed =
    unfold consume_single in
    (elim (Option-cases (JsMap.get k rs)) [
      | inl gone ↦ ground arith
      | inr (r, found) ↦ ground (arith, get-delete k id rs, eq_iff k id)
    ])
apply-credit id op_revoke rs keyed =
    unfold revoke_session in
    ground (
      arith,
      get-retain (λ r. not (is_session_grant r)) id rs keyed,
      Option-cases (JsMap.get id rs),
    )

pub apply-IsKeyed : (op : ApprovalOp) (rs : Requests) → IsKeyed rs → IsKeyed (apply op rs)
unfolding apply
apply-IsKeyed (op_request req) rs h =
    unfold request_approval in ground (arith, IsKeyed-set req.id (requested req) rs h)
apply-IsKeyed (op_approve k scope by) rs h =
    unfold approve_request in
    (elim (Option-cases (JsMap.get k rs)) [
      | inl gone ↦ ground arith
      | inr (r, found) ↦ ground (arith, IsKeyed-set k (granted scope by r) rs h)
    ])
apply-IsKeyed (op_deny k) rs h =
    unfold deny_request in
    (elim (Option-cases (JsMap.get k rs)) [
      | inl gone ↦ ground arith
      | inr (r, found) ↦ ground (arith, IsKeyed-set k (record r { status = denied }) rs h)
    ])
apply-IsKeyed (op_consume k) rs h =
    unfold consume_single in
    (elim (Option-cases (JsMap.get k rs)) [
      | inl gone ↦ ground arith
      | inr (r, found) ↦ ground (arith, IsKeyed-delete k rs h)
    ])
apply-IsKeyed op_revoke rs h =
    unfold revoke_session in IsKeyed-retain (λ r. not (is_session_grant r)) rs h

consumptions-credit :
    (id : String) (ops : List ApprovalOp) (rs : Requests)
    → IsKeyed rs
    → consumptions id ops rs ≤ approvals id ops rs + credit (JsMap.get id rs)
unfolding consumptions approvals
consumptions-credit id [] rs h = omega arith
consumptions-credit id (op ∷ ops) rs h = omega (
  arith,
  apply-credit id op rs h,
  consumptions-credit id ops (apply op rs) (apply-IsKeyed op rs h),
)

-- Over any calls from the start, an approval is consumed at most as often as the user has approved a
-- request with its id: an approval for a single use is never used twice.
pub consumed_at_most_approved :
    (id : String) (ops : List ApprovalOp) → consumptions id ops [] ≤ approvals id ops []
consumed_at_most_approved id ops =
    let none_yet : credit (JsMap.get id []) ≡ 0 = (unfold JsMap.get in refl) in
    omega (arith, none_yet, consumptions-credit id ops [] tt)
