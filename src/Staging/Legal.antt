-- ===== src/Staging/Legal.antt =====
-- packages/core/src/staging/service.ts: what holds of the inbox over any calls.
use dina_mobile.Prelude.{
  ℕ, not, ◌&&◌, nat_eq, ◌+◌, ◌≤◌, String, Bool, true, Option, none, some, List, [], ◌∷◌, ◌≡◌, ◌≢◌,
  refl, inl, inr, arith, if◌then◌else◌, or_default, leb, max, Option-cases,
}
use dina_mobile.JsMap
use dina_mobile.JsMap.{JsMap, IsKeyed, IsKeyed-set, IsKeyed-update_all, get-set, get-update_all}
use dina_mobile.Staging.StateMachine.{
  classifying, pending_approval, failed, same_status, same_status_iff, is_valid_transition,
  staging_lease_duration_s,
}
use dina_mobile.Staging.Inbox.{
  StagingItem, Inbox, empty_inbox, ingest, ingested_item, claim, resolve, resolved_status, classify,
  fail, with_error, mark_pending_approval, resume_after_approval_granted, extend_lease,
}
use dina_mobile.Staging.Sweep.{sweep, no_actions, drain_for_persona, drain_status}
use dina_mobile.Staging.Steps.{
  Op, ingest_op, claim_op, resolve_op, fail_op, mark_op, resume_op, extend_op, sweep_op, drain_op,
  step, HasFreshId, legal_change, legal, legal_self, resolved, items-store_if_open,
}
use dina_mobile.Staging.Calls.{
  legal-resolve, legal-fail, legal-mark, legal-resume, legal-extend, legal-ingest,
}
use dina_mobile.Staging.Loops.{
  legal-claim_loop, legal-sweep_loop, IsKeyed-sweep_loop, IsKeyed-claim_loop, items-drain_calls,
  legal-drain_status,
}

module _ (hash : JsMap String → String) where
  -- In an inbox with each id once, each call (`resolveMulti` apart) with a fresh id leaves the item
  -- at any id in its state or moves it along the table, or deletes it; a failure and nothing else
  -- counts a retry; a failed item is received again only while its retries are at most three; a new
  -- item is received and has no retries.
  pub step-legal :
      (op : Op) (j : String) (b : Inbox)
      → IsKeyed b.items
      → HasFreshId op b
      → legal (JsMap.get j b.items) (JsMap.get j (step hash op b).items) ≡ true
  unfolding step
  step-legal (ingest_op input id now) j b k f = legal-ingest hash j b input id now f
  step-legal (claim_op limit lease now) j b k f =
      unfold claim in
      legal-claim_loop j limit now (or_default lease staging_lease_duration_s) b.items
  step-legal (resolve_op id persona is_open classified) j b k f =
      legal-resolve hash j b id persona is_open classified
  step-legal (fail_op id message) j b k f = legal-fail hash j b id message
  step-legal (mark_op id approval_id) j b k f = legal-mark hash j b id approval_id
  step-legal (resume_op id now) j b k f = legal-resume hash j b id now
  step-legal (extend_op id seconds now) j b k f = legal-extend hash j b id seconds now
  step-legal (sweep_op now) j b k f = unfold sweep in legal-sweep_loop j now b.items no_actions k
  step-legal (drain_op persona) j b k f =
      unfold drain_for_persona in
      rw (items-drain_calls, get-update_all) (drained (JsMap.get j b.items))
    where
      drained : (o : Option StagingItem) → legal o (JsMap.mapped (drain_status persona) o) ≡ true
      drained none = legal_self none
      drained (some a) = legal-drain_status persona a

  step-IsKeyed : (op : Op) (b : Inbox) → IsKeyed b.items → IsKeyed (step hash op b).items
  unfolding step fail mark_pending_approval resume_after_approval_granted extend_lease
  step-IsKeyed (ingest_op input id now) b k =
      unfold ingest in ground (arith, IsKeyed-set id (ingested_item input id now hash) b.items k)
  step-IsKeyed (claim_op limit lease now) b k =
      unfold claim in
      IsKeyed-claim_loop limit now (or_default lease staging_lease_duration_s) b.items k
  step-IsKeyed (resolve_op id persona is_open classified) b k =
      elim (Option-cases (JsMap.get id b.items)) [
        | inl gone ↦ unfold resolve in ground arith
        | inr (a, found) ↦
            unfold resolve in
            ground (
              arith,
              items-store_if_open is_open classified
                  (classify classified
                    (record a { persona = persona; status = resolved_status is_open }))
                  persona b,
              IsKeyed-set id (resolved persona is_open classified a) b.items k,
            )
      ]
  step-IsKeyed (fail_op id message) b k = elim (Option-cases (JsMap.get id b.items)) [
    | inl gone ↦ ground arith
    | inr (a, found) ↦
        let u : StagingItem =
          with_error message (record a { status = failed; retry_count = a.retry_count + 1 }) in
        ground (arith, IsKeyed-set id u b.items k)
  ]
  step-IsKeyed (mark_op id approval_id) b k = elim (Option-cases (JsMap.get id b.items)) [
    | inl gone ↦ ground arith
    | inr (a, found) ↦
        let u : StagingItem = record a {
          status = pending_approval;
          approval_id = some approval_id;
        } in
        ground (arith, IsKeyed-set id u b.items k)
  ]
  step-IsKeyed (resume_op id now) b k = elim (Option-cases (JsMap.get id b.items)) [
    | inl gone ↦ ground arith
    | inr (a, found) ↦
        let u : StagingItem = record a {
          status = classifying;
          lease_until = now + staging_lease_duration_s;
        } in
        ground (arith, IsKeyed-set id u b.items k)
  ]
  step-IsKeyed (extend_op id seconds now) b k = elim (Option-cases (JsMap.get id b.items)) [
    | inl gone ↦ ground arith
    | inr (a, found) ↦
        let u : StagingItem = record a { lease_until = max a.lease_until now + seconds } in
        ground (arith, IsKeyed-set id u b.items k)
  ]
  step-IsKeyed (sweep_op now) b k = unfold sweep in IsKeyed-sweep_loop now b.items no_actions k
  step-IsKeyed (drain_op persona) b k =
      unfold drain_for_persona in
      rw items-drain_calls (IsKeyed-update_all (drain_status persona) b.items k)

  unfoldable pub run : List Op → Inbox → Inbox
  run [] b = b
  run (op ∷ ops) b = run ops (step hash op b)

  -- Each new item of the run has a fresh id.
  abbrev pub HasFreshIds : List Op → Inbox → Type 0
  HasFreshIds [] b = Unit
  HasFreshIds (op ∷ ops) b = HasFreshId op b × HasFreshIds ops (step hash op b)

  -- A failed item has failed at most four times, any other at most three times.
  abbrev pub bounded : Option StagingItem → Bool
  bounded none = true
  bounded (some a) = leb a.retry_count (if same_status a.status failed then 4 else 3)

  bounded-legal :
      (o o' : Option StagingItem) → legal o o' ≡ true → bounded o ≡ true → bounded o' ≡ true
  unfolding legal legal_change same_status is_valid_transition
  bounded-legal none none h k = refl
  bounded-legal none (some a) h k = ground arith
  bounded-legal (some a) none h k = refl
  bounded-legal (some a) (some u) h k = ground arith

  run-bounded :
      (ops : List Op) (j : String) (b : Inbox)
      → IsKeyed b.items
      → HasFreshIds ops b
      → bounded (JsMap.get j b.items) ≡ true
      → bounded (JsMap.get j (run ops b).items) ≡ true
  unfolding run
  run-bounded [] j b k f h = h
  run-bounded (op ∷ ops) j b k f h = run-bounded ops j (step hash op b) (step-IsKeyed op b k) f.1 (
      bounded-legal (JsMap.get j b.items) (JsMap.get j (step hash op b).items)
        (step-legal op j b k f.0) h)

  -- The number of times that the item at an id has failed, after a call: one more if the call has
  -- made it failed, and none if there is no item any more.
  abbrev pub failures_after : Option StagingItem → Option StagingItem → ℕ → ℕ
  failures_after _ none n = 0
  failures_after none (some u) n = n
  failures_after (some a) (some u) n =
      if not (same_status a.status failed) && same_status u.status failed then n + 1 else n

  -- How often the item at an id has failed in a run, since it was ingested.
  unfoldable pub failures : String → List Op → Inbox → ℕ → ℕ
  failures j [] b n = n
  failures j (op ∷ ops) b n =
      let b' = step hash op b in
      failures j ops b' (failures_after (JsMap.get j b.items) (JsMap.get j b'.items) n)

  -- The retry count is the number of failures; where there is no item, nothing is counted.
  abbrev counted : Option StagingItem → ℕ → Bool
  counted none n = nat_eq n 0
  counted (some a) n = nat_eq a.retry_count n

  counted-legal :
      (o o' : Option StagingItem) (n : ℕ)
      → legal o o' ≡ true
      → counted o n ≡ true
      → counted o' (failures_after o o' n) ≡ true
  unfolding legal legal_change same_status is_valid_transition
  counted-legal none none n h k = refl
  counted-legal none (some a) n h k = ground arith
  counted-legal (some a) none n h k = refl
  counted-legal (some a) (some u) n h k = ground arith

  run-counted :
      (ops : List Op) (j : String) (b : Inbox) (n : ℕ)
      → IsKeyed b.items
      → HasFreshIds ops b
      → counted (JsMap.get j b.items) n ≡ true
      → counted (JsMap.get j (run ops b).items) (failures j ops b n) ≡ true
  unfolding run failures
  run-counted [] j b n k f h = h
  run-counted (op ∷ ops) j b n k f h =
      let b' = step hash op b in
      run-counted ops j b' (failures_after (JsMap.get j b.items) (JsMap.get j b'.items) n)
        (step-IsKeyed op b k) f.1
        (counted-legal (JsMap.get j b.items) (JsMap.get j b'.items) n (step-legal op j b k f.0) h)

  -- Whatever the calls (`resolveMulti` apart) from an empty inbox, with fresh ids: since it was
  -- ingested, no item has become failed more than four times, and an item that is not failed at most
  -- three times; and the item's retry count is that number.
  pub retries_bounded :
      (ops : List Op) (j : String) (a : StagingItem)
      → HasFreshIds ops empty_inbox
      → JsMap.get j (run ops empty_inbox).items ≡ some a
      → (failures j ops empty_inbox 0 ≤ 4)
        × (a.status ≢ failed → failures j ops empty_inbox 0 ≤ 3)
        × (a.retry_count ≡ failures j ops empty_inbox 0)
  retries_bounded ops j a f found =
      let h : bounded (JsMap.get j (run ops empty_inbox).items) ≡ true =
        run-bounded ops j empty_inbox tt f (unfold JsMap.get in refl) in
      let c : counted (JsMap.get j (run ops empty_inbox).items) (failures j ops empty_inbox 0)
          ≡ true =
        run-counted ops j empty_inbox 0 tt f (unfold JsMap.get in refl) in
      (
        ground (arith, same_status_iff a.status failed),
        ground (arith, same_status_iff a.status failed),
        ground arith,
      )
