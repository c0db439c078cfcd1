-- ===== src/Approval/Tests.antt =====
-- packages/core/src/approval: approvals in concrete lifecycles.
use dina_mobile.Prelude.{◌≤◌, none, List, [], ◌∷◌, ◌≡◌, refl}
use dina_mobile.JsMap
use dina_mobile.Approval.Manager.{
  granted, session, denied, single, RequestInput, ApprovalRequest, Requests, requested,
  request_approval, approve_request, consume_single,
}
use dina_mobile.Approval.Grants.{
  ApprovalOp, op_request, op_approve, op_consume, apply, consumptions, approvals,
  consumed_at_most_approved,
}

abbrev purchase : RequestInput
purchase = record {
  id = "p";
  action = "purchase";
  requester_did = "did:agent";
  persona = "general";
  reason = "";
  preview = "";
  scope = none;
  approved_by = none;
  created_at = 0;
}

abbrev calls : List ApprovalOp
calls = op_request purchase ∷ op_approve "p" single "user" ∷ op_consume "p" ∷ op_consume "p" ∷ []

consumed_once : consumptions "p" calls [] ≡ 1
unfolding consumptions apply request_approval approve_request consume_single JsMap.get JsMap.set
    JsMap.delete JsMap.has
consumed_once = refl

consumed_at_most_approved_example : consumptions "p" calls [] ≤ approvals "p" calls []
consumed_at_most_approved_example = consumed_at_most_approved "p" calls

abbrev refused : ApprovalRequest
refused = record (requested purchase) { status = denied }

abbrev granted_both : Requests
granted_both =
    ("s", granted session "user" (requested purchase))
    ∷ ("p", granted single "user" (requested purchase))
    ∷ []
