-- ===== src/Workflow/Resend.antt =====
-- packages/core/src/workflow/service.ts: what the retry pass does with a response that was delivered meanwhile.
use dina_mobile.Prelude.{ℕ, String, Bool, true, false, some, List, [], ◌∷◌, ◌≡◌, ◌≢◌, arith, eq_iff}
use dina_mobile.JsSet
use dina_mobile.JsSet.{has-add, has-delete}
use dina_mobile.Workflow.Bridge.{
  durable, Bridge, find_send, remove_send, new_send, begin_send, release, start_clear, settle_send,
  drop_stash, end_clear, is_waiting, visit_durable, advance_pass,
}

-- The three steps of the race, from the first send and one of the retry pass.
abbrev after_delivery : String → String → Bridge → Bridge
after_delivery id other b = record b {
  sends = new_send other true true ∷ record (new_send id true false) { clearing = true } ∷ [];
  delivered = id ∷ b.delivered;
  fallback = JsSet.delete id b.fallback;
}

abbrev after_clear : String → String → Bridge → Bridge
after_clear id other b = record (after_delivery id other b) {
  sends = new_send other true true ∷ [];
  in_flight = JsSet.delete id b.in_flight;
  stashes = JsSet.delete id b.stashes;
  awaiting_clear = JsSet.delete id b.awaiting_clear;
}

abbrev after_failure : String → String → Bridge → Bridge
after_failure id other b = record (after_clear id other b) {
  sends = [];
  in_flight = JsSet.delete other (JsSet.delete id b.in_flight);
}

module _ (id other : String) (ne : other ≢ id) where
  delivery_lem :
      (b : Bridge)
      → b.sends ≡ new_send id true false ∷ new_send other true true ∷ []
      → settle_send id true b ≡ after_delivery id other b
  unfolding settle_send start_clear find_send remove_send
  delivery_lem b sends = rw sends (ground (arith, sends, eq_iff id id, eq_iff other id))

  clear_lem : (b : Bridge) → end_clear id true (after_delivery id other b) ≡ after_clear id other b
  unfolding end_clear release drop_stash find_send remove_send
  clear_lem b = ground (arith, eq_iff id id, eq_iff other id)

  failure_lem :
      (b : Bridge) → settle_send other false (after_clear id other b) ≡ after_failure id other b
  unfolding settle_send release find_send remove_send
  failure_lem b = ground (arith, eq_iff other other)

-- The first send of a response and a retry pass's send of another task are the only sends that are
-- awaited, the pass has the response next on its list, and it does not wait to be cleared. If the
-- first send is delivered and its stash cleared before the other send fails, the pass then sends
-- the response again: it goes by the stash that it listed, not by the one in the store.
pub listed_response_sent_again :
    (id other : String) (rest : List String) (limit : ℕ) (write_ok : Bool) (b : Bridge)
    → b.pass ≡ durable (id ∷ rest)
    → b.sends ≡ new_send id true false ∷ new_send other true true ∷ []
    → other ≢ id
    → JsSet.has id b.awaiting_clear ≡ false
    → let cleared = end_clear id true (settle_send id true b) in
      let after = advance_pass limit write_ok (settle_send other false cleared) in
      (JsSet.has id cleared.delivered ≡ true)
      × (JsSet.has id cleared.stashes ≡ false)
      × (find_send id after.sends ≡ some (new_send id true true))
listed_response_sent_again id other rest limit write_ok b at sends ne not_waiting =
    let delivery = delivery_lem id other ne b sends in
    let clear = clear_lem id other ne b in
    let failure = failure_lem id other ne b in
    rw (delivery, clear, failure)
      (unfold JsSet.has advance_pass is_waiting visit_durable begin_send find_send in
        (
          ground (arith, eq_iff id id),
          ground (arith, has-delete id id b.stashes, eq_iff id id),
          ground (
            arith,
            at,
            has-delete id id b.awaiting_clear,
            has-delete id id b.in_flight,
            has-delete other id (JsSet.delete id b.in_flight),
            eq_iff id id,
          ),
        ))
