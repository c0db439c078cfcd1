-- ===== src/Transport/Attempts.antt =====
-- packages/core/src/transport: how often one message is sent.
use dina_mobile.Prelude.{
  ℕ, All, ◌≤◌, String, true, none, some, List, [], ◌∷◌, ◌≡◌, ◌≢◌, refl, inl, inr, arith, ◌==◌,
  eq_iff, if◌then◌else◌, Option-cases, Bool-cases, keep, insert_by, sort_by,
}
use dina_mobile.JsMap
use dina_mobile.JsMap.{JsMap, IsKeyed, get-set, get-retain, IsKeyed-set, IsKeyed-retain}
use dina_mobile.Transport.Outbox.{
  OutboxEntry, Outbox, enqueue_message, enqueued, mark_failed, delete_expired, is_ready, due_at,
  get_pending_for_retry,
}
use dina_mobile.Transport.Retry.{
  call_enqueue, call_expire, perform, perform_all, Turn, Sender, RetryResult, deliver, settle,
  retry_loop, retry_pending_outbox, outbox_ttl_s, Event, ev_call, ev_retry, happen, happen_all,
}
use dina_mobile.Transport.Credit.{
  count_of, count_entries, IsNamed, IsOutbox, spares, Holds, mark_delivered-Holds,
  mark_failed-Holds, perform-Holds, perform_all-Holds, mark_failed_twice_lem, accepted-Holds,
  failed-Holds, less-Holds, other-Holds, set-IsOutbox,
}

-- What a pass has left to send of `j` when it has sent `e`.
abbrev SparesTurns : String → (String → Turn) → Type 0
SparesTurns j turn = (id : String) → All (λ c. spares j c ≡ true) (turn id).meanwhile

abbrev SenderHolds : String → ℕ → Sender → Type 0
SenderHolds j w s = Holds j w s.sent s.outbox

turn_self-Holds :
    (j : String) (turn : String → Turn) (e : OutboxEntry) (r : RetryResult) (s : Sender)
    → SparesTurns j turn
    → e.id ≡ j
    → SenderHolds j 1 s
    → SenderHolds j 0 (settle e (turn e.id).clock (deliver e (turn e.id) s) r).1
unfolding deliver settle
turn_self-Holds j turn e r s sp named h =
    let b = perform_all (turn e.id).meanwhile s.outbox in
    let quiet =
      perform_all-Holds j 1 s.sent (turn e.id).meanwhile s.outbox (omega arith) (sp e.id) h in
    ground (
      arith,
      accepted-Holds j s.sent b quiet,
      failed-Holds j s.sent (turn e.id).clock b quiet,
      mark_failed_twice_lem j (turn e.id).clock b,
      mark_failed_twice_lem j (turn e.id).clock s.outbox,
      less-Holds j s.sent (mark_failed j (turn e.id).clock s.outbox).1
          (mark_failed-Holds j 1 s.sent j (turn e.id).clock s.outbox (omega arith) h),
    )

turn_other-Holds :
    (j : String) (w : ℕ) (turn : String → Turn) (e : OutboxEntry) (r : RetryResult) (s : Sender)
    → w ≤ 1
    → SparesTurns j turn
    → e.id ≢ j
    → SenderHolds j w s
    → SenderHolds j w (settle e (turn e.id).clock (deliver e (turn e.id) s) r).1
unfolding deliver settle
turn_other-Holds j w turn e r s le sp ne h =
    let b = perform_all (turn e.id).meanwhile s.outbox in
    let quiet =
      other-Holds j e.id w s.sent b ne
        (perform_all-Holds j w s.sent (turn e.id).meanwhile s.outbox le (sp e.id) h) in
    ground (
      arith,
      mark_delivered-Holds j w (e.id ∷ s.sent) e.id b le quiet,
      mark_failed-Holds j w (e.id ∷ s.sent) e.id (turn e.id).clock b le quiet,
      mark_failed_twice_lem e.id (turn e.id).clock b,
      mark_failed_twice_lem e.id (turn e.id).clock s.outbox,
      mark_failed-Holds j w s.sent e.id (turn e.id).clock s.outbox le h,
    )

retry_loop-Holds :
    (j : String) (turn : String → Turn) (es : List OutboxEntry) (r : RetryResult) (s : Sender)
    → SparesTurns j turn
    → count_entries j es ≤ 1
    → SenderHolds j (count_entries j es) s
    → SenderHolds j 0 (retry_loop turn es r s).1
unfolding retry_loop
retry_loop-Holds j turn [] r s sp le h = h
retry_loop-Holds j turn (e ∷ es) r s sp le h =
    let after = settle e (turn e.id).clock (deliver e (turn e.id) s) r in
    elim (Bool-cases (e.id == j)) [
      | inl self ↦ retry_loop-Holds j turn es after.0 after.1 sp (ground arith) (
          let none_left : count_entries j es ≡ 0 = ground arith in
          rw none_left
            (turn_self-Holds j turn e r s sp (ground (arith, eq_iff e.id j)) (ground arith)))
      | inr other ↦ retry_loop-Holds j turn es after.0 after.1 sp (ground arith) (
          turn_other-Holds j (count_entries j es) turn e r s (ground arith) sp
            (ground (arith, eq_iff e.id j)) (ground arith))
    ]

count-insert_by :
    (j : String) (e : OutboxEntry) (es : List OutboxEntry)
    → count_entries j (insert_by due_at e es) ≡ count_entries j (e ∷ es)
unfolding insert_by
count-insert_by j e [] = refl
count-insert_by j e (x ∷ xs) = ground (arith, count-insert_by j e xs)

pub count-sort_by :
    (j : String) (es : List OutboxEntry) → count_entries j (sort_by due_at es) ≡ count_entries j es
unfolding sort_by
count-sort_by j [] = refl
count-sort_by j (e ∷ es) =
    ground (arith, count-sort_by j es, count-insert_by j e (sort_by due_at es))

-- The ready entries have one of the id `j` at most, which the outbox has under `j`.
pub count-ready :
    (j : String) (now : ℕ) (b : Outbox)
    → IsOutbox b
    → count_entries j (keep (is_ready now) (JsMap.values b))
      ≡ elim (JsMap.get j b) [ none ↦ 0 | some e ↦ if is_ready now e then 1 else 0 ]
unfolding JsMap.get JsMap.values JsMap.has
count-ready j now [] h = refl
count-ready j now ((i, e) ∷ b) h =
    let named : IsNamed b = λ k u found. ground (arith, h.1 k u, eq_iff i k) in
    ground (arith, count-ready j now b (h.0.1, named), h.1 i e, eq_iff i j, eq_iff i i)

-- When the expired entries are gone, the entries that the pass will send have `j` once at most, and
-- its send is within the budget.
ready-Holds :
    (j : String) (sent : List String) (now : ℕ) (b : Outbox)
    → Holds j 0 sent b
    → (count_entries j (get_pending_for_retry now b) ≤ 1)
      × Holds j (count_entries j (get_pending_for_retry now b)) sent b
unfolding get_pending_for_retry
ready-Holds j sent now b h =
    let n = count-ready j now b h.0 in
    let sorted = count-sort_by j (keep (is_ready now) (JsMap.values b)) in
    elim (Option-cases (JsMap.get j b)) [
      | inl gone ↦ (ground arith, (h.0, ground arith))
      | inr (e, found) ↦
          unfold is_ready in (ground (arith, n, sorted), (h.0, ground (arith, n, sorted)))
    ]

-- The event neither enqueues nor resumes `j`, nor do the calls made while a pass awaits a delivery.
abbrev pub SparesEvent : String → Event → Type 0
SparesEvent j (ev_call c) = spares j c ≡ true
SparesEvent j (ev_retry turn now) = SparesTurns j turn

happen-Holds :
    (j : String) (e : Event) (s : Sender)
    → SparesEvent j e
    → SenderHolds j 0 s
    → SenderHolds j 0 (happen e s)
unfolding happen
happen-Holds j (ev_call c) s sp h = perform-Holds j 0 s.sent c s.outbox (omega arith) sp h
happen-Holds j (ev_retry turn now) s sp h =
    unfold retry_pending_outbox in
    (let b = (delete_expired outbox_ttl_s now s.outbox).1 in
      let ready =
        ready-Holds j s.sent now b
          (perform-Holds j 0 s.sent (call_expire outbox_ttl_s now) s.outbox (omega arith) refl h) in
      retry_loop-Holds j turn (get_pending_for_retry now b)
        (record {
          attempted = 0;
          delivered = 0;
          failed = 0;
          expired = (delete_expired outbox_ttl_s now s.outbox).0;
        })
        (record s { outbox = b }) sp ready.0 ready.1)

happen_all-Holds :
    (j : String) (es : List Event) (s : Sender)
    → All (SparesEvent j) es
    → SenderHolds j 0 s
    → SenderHolds j 0 (happen_all es s)
unfolding happen_all
happen_all-Holds j [] s sp h = h
happen_all-Holds j (e ∷ es) s sp h =
    happen_all-Holds j es (happen e s) sp.1 (happen-Holds j e s sp.0 h)

-- A message that is enqueued under an unused id is sent at most five times, whatever calls and retry
-- passes follow, one pass at a time, and whatever calls are made while a pass awaits a delivery, if
-- none of them enqueues or resumes the id again.
pub sent_at_most_five :
    (j did : String) (payload : List ℕ) (now : ℕ) (es : List Event) (s : Sender)
    → IsOutbox s.outbox
    → JsMap.get j s.outbox ≡ none
    → count_of j s.sent ≡ 0
    → All (SparesEvent j) es
    → count_of j (happen_all es (happen (ev_call (call_enqueue did payload j now)) s)).sent ≤ 5
unfolding happen
sent_at_most_five j did payload now es s outbox absent unsent sp =
    let after = happen (ev_call (call_enqueue did payload j now)) s in
    let start : SenderHolds j 0 after =
      (unfold perform enqueue_message in
        ground (
          arith,
          set-IsOutbox j (enqueued j did payload now) s.outbox refl outbox,
          get-set j j (enqueued j did payload now) s.outbox,
        )) in
    ground (arith, happen_all-Holds j es after sp start)
