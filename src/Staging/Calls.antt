-- ===== src/Staging/Calls.antt =====
-- packages/core/src/staging/service.ts: how the calls on one item change it.
use dina_mobile.Prelude.{
  ℕ, ◌+◌, String, Bool, true, Option, none, some, ◌≡◌, inl, inr, arith, eq_iff, max, Option-cases,
}
use dina_mobile.JsMap
use dina_mobile.JsMap.{JsMap, IsKeyed, get-set, get-update_all}
use dina_mobile.Staging.StateMachine.{
  classifying, pending_approval, failed, same_status, same_status_iff, staging_lease_duration_s,
}
use dina_mobile.Staging.Inbox.{
  StagingItem, Inbox, Classified, IngestInput, ingest, ingested_item, resolve, resolved_status,
  classify, fail, with_error, mark_pending_approval, resume_after_approval_granted, extend_lease,
}
use dina_mobile.Staging.Steps.{
  step, legal, legal_self, legal_move, resolved, items-store_if_open, legal-set, legal-resolved,
  legal-failed, ingest_op, resolve_op, fail_op, mark_op, resume_op, extend_op,
}

-- The branch where the item is there and in the state that the call wants.
module _ (hash : JsMap String → String) (j : String) (b : Inbox) where
  pub legal-resolve :
      (id persona : String) (is_open : Bool) (classified : Option Classified)
      → legal
          (JsMap.get j b.items)
          (JsMap.get j (step hash (resolve_op id persona is_open classified) b).items)
        ≡ true
  unfolding step resolve
  legal-resolve id persona is_open classified = elim (Option-cases (JsMap.get id b.items)) [
    | inl gone ↦ ground (arith, legal_self (JsMap.get j b.items))
    | inr (a, found) ↦ ground (
      arith,
      legal_self (JsMap.get j b.items),
      same_status_iff a.status classifying,
      legal-resolved persona is_open classified a,
      items-store_if_open is_open classified
          (classify classified (record a { persona = persona; status = resolved_status is_open }))
          persona b,
      legal-set id j a (resolved persona is_open classified a) b.items found,
    )
  ]

  pub legal-fail :
      (id : String) (message : Option String)
      → legal (JsMap.get j b.items) (JsMap.get j (step hash (fail_op id message) b).items) ≡ true
  unfolding step fail
  legal-fail id message = elim (Option-cases (JsMap.get id b.items)) [
    | inl gone ↦ ground (arith, legal_self (JsMap.get j b.items))
    | inr (a, found) ↦ ground (
      arith,
      legal_self (JsMap.get j b.items),
      same_status_iff a.status classifying,
      legal-failed message a,
      legal-set id j a
          (with_error message (record a { status = failed; retry_count = a.retry_count + 1 }))
          b.items found,
    )
  ]

  pub legal-mark :
      (id approval_id : String)
      → legal (JsMap.get j b.items) (JsMap.get j (step hash (mark_op id approval_id) b).items)
        ≡ true
  unfolding step mark_pending_approval
  legal-mark id approval_id = elim (Option-cases (JsMap.get id b.items)) [
    | inl gone ↦ ground (arith, legal_self (JsMap.get j b.items))
    | inr (a, found) ↦
        let u : StagingItem = record a {
          status = pending_approval;
          approval_id = some approval_id;
        } in
        ground (
          arith,
          legal_self (JsMap.get j b.items),
          same_status_iff a.status classifying,
          legal_move a u,
          legal-set id j a u b.items found,
        )
  ]

  pub legal-resume :
      (id : String) (now : ℕ)
      → legal (JsMap.get j b.items) (JsMap.get j (step hash (resume_op id now) b).items) ≡ true
  unfolding step resume_after_approval_granted
  legal-resume id now = elim (Option-cases (JsMap.get id b.items)) [
    | inl gone ↦ ground (arith, legal_self (JsMap.get j b.items))
    | inr (a, found) ↦
        let u : StagingItem = record a {
          status = classifying;
          lease_until = now + staging_lease_duration_s;
        } in
        ground (
          arith,
          legal_self (JsMap.get j b.items),
          same_status_iff a.status pending_approval,
          legal_move a u,
          legal-set id j a u b.items found,
        )
  ]

  pub legal-extend :
      (id : String) (seconds now : ℕ)
      → legal (JsMap.get j b.items) (JsMap.get j (step hash (extend_op id seconds now) b).items)
        ≡ true
  unfolding step extend_lease
  legal-extend id seconds now = elim (Option-cases (JsMap.get id b.items)) [
    | inl gone ↦ ground (arith, legal_self (JsMap.get j b.items))
    | inr (a, found) ↦
        let u : StagingItem = record a { lease_until = max a.lease_until now + seconds } in
        ground (
          arith,
          legal_self (JsMap.get j b.items),
          same_status_iff a.status classifying,
          legal_move a u,
          legal-set id j a u b.items found,
        )
  ]

  pub legal-ingest :
      (input : IngestInput) (id : String) (now : ℕ)
      → JsMap.get id b.items ≡ none
      → legal (JsMap.get j b.items) (JsMap.get j (step hash (ingest_op input id now) b).items)
        ≡ true
  unfolding step ingest legal same_status
  legal-ingest input id now fresh = ground (
    arith,
    legal_self (JsMap.get j b.items),
    get-set id j (ingested_item input id now hash) b.items,
    eq_iff id j,
  )
