-- ===== src/Transport/Pass.antt =====
-- packages/core/src/transport/retry.ts: what one retry pass does to every message.
use dina_mobile.Prelude.{
  ℕ, ◌+◌, ◌≤◌, String, Bool, true, not, Option, none, some, List, [], ◌∷◌, ◌≡◌, refl, inl, inr,
  arith, ◌==◌, eq_iff, if◌then◌else◌, Option-cases, keep, ltb, length,
}
use dina_mobile.JsMap
use dina_mobile.JsMap.{get-set, get-retain}
use dina_mobile.Transport.Outbox.{
  OutboxEntry, Outbox, delivered, mark_delivered, mark_failed, failed_at, delete_expired,
  is_past_ttl, is_ready, get_pending_for_retry,
}
use dina_mobile.Transport.Retry.{
  Turn, accepted, refused, threw, perform_all, Sender, RetryResult, deliver, settle, retry_loop,
  retry_pending_outbox, outbox_ttl_s,
}
use dina_mobile.Transport.Credit.{count_entries, IsOutbox, mark_failed_twice_lem, retain-IsOutbox}
use dina_mobile.Transport.Attempts.{count-sort_by, count-ready}

-- What becomes of a message that is sent.
abbrev pub settled : Turn → OutboxEntry → OutboxEntry
settled turn e = elim turn.outcome [
  | accepted ↦ record e { status = delivered }
  | refused ↦ failed_at turn.clock e
  | threw ↦ failed_at turn.clock e
]

-- What becomes of any message in a pass.
abbrev pub passed_over : Turn → ℕ → Option OutboxEntry → Option OutboxEntry
passed_over turn now none = none
passed_over turn now (some e) =
    if is_past_ttl outbox_ttl_s now e
    then none
    else if is_ready now e
    then some (settled turn e)
    else some e

get-mark_delivered :
    (i j : String) (b : Outbox)
    → JsMap.get j (mark_delivered i b) ≡ (
        if i == j
        then JsMap.mapped (λ e. record e { status = delivered }) (JsMap.get j b)
        else JsMap.get j b)
unfolding mark_delivered
get-mark_delivered i j b = elim (Option-cases (JsMap.get i b)) [
  | inl gone ↦ ground (arith, eq_iff i j)
  | inr (e, found) ↦ ground (arith, eq_iff i j, get-set i j (record e { status = delivered }) b)
]

get-mark_failed :
    (i j : String) (now : ℕ) (b : Outbox)
    → JsMap.get j (mark_failed i now b).1
      ≡ (if i == j then JsMap.mapped (failed_at now) (JsMap.get j b) else JsMap.get j b)
unfolding mark_failed
get-mark_failed i j now b = elim (Option-cases (JsMap.get i b)) [
  | inl gone ↦ ground (arith, eq_iff i j)
  | inr (e, found) ↦ ground (arith, eq_iff i j, get-set i j (failed_at now e) b)
]

-- Nothing else happens while a delivery is awaited.
abbrev pub IsQuiet : (String → Turn) → Type 0
IsQuiet turn = (id : String) → (turn id).meanwhile ≡ []

module _ (turn : String → Turn) (quiet : IsQuiet turn) where
  get-turn :
      (j : String) (e : OutboxEntry) (r : RetryResult) (s : Sender)
      → s.fn_set ≡ true
      → let after = (settle e (turn e.id).clock (deliver e (turn e.id) s) r).1 in
        (after.fn_set ≡ true)
        × (JsMap.get j after.outbox ≡ (
            if e.id == j
            then JsMap.mapped (settled (turn e.id)) (JsMap.get j s.outbox)
            else JsMap.get j s.outbox))
  unfolding deliver settle perform_all
  get-turn j e r s set = ground (
    arith,
    quiet e.id,
    get-mark_delivered e.id j s.outbox,
    get-mark_failed e.id j (turn e.id).clock s.outbox,
    mark_failed_twice_lem e.id (turn e.id).clock s.outbox,
  )

  get-retry_loop :
      (j : String) (es : List OutboxEntry) (r : RetryResult) (s : Sender)
      → s.fn_set ≡ true
      → count_entries j es ≤ 1
      → JsMap.get j (retry_loop turn es r s).1.outbox ≡ (
          if ltb 0 (count_entries j es)
          then JsMap.mapped (settled (turn j)) (JsMap.get j s.outbox)
          else JsMap.get j s.outbox)
  unfolding retry_loop
  get-retry_loop j [] r s set le = refl
  get-retry_loop j (e ∷ es) r s set le =
      let after = settle e (turn e.id).clock (deliver e (turn e.id) s) r in
      ground (arith, get-retry_loop j es after.0 after.1, get-turn j e r s set, eq_iff e.id j)

counts-retry_loop :
    (turn : String → Turn) (es : List OutboxEntry) (r : RetryResult) (s : Sender)
    → let r' = (retry_loop turn es r s).0 in
      (r'.attempted ≡ r.attempted + length es)
      × (r'.delivered + r'.failed ≡ r.delivered + r.failed + length es)
      × (r'.expired ≡ r.expired)
unfolding retry_loop settle
counts-retry_loop turn [] r s = (omega arith, omega arith, refl)
counts-retry_loop turn (e ∷ es) r s =
    let d = deliver e (turn e.id) s in
    let after = settle e (turn e.id).clock d r in
    ground (arith, counts-retry_loop turn es after.0 after.1)

-- With a delivery function set and nothing else happening while it is awaited, a pass over an outbox
-- with each id once deletes exactly the expired messages, sends exactly the ready ones of the
-- rest, each of which becomes delivered, or failed with one retry more and the backoff for that
-- number of retries, and leaves the others as they are.
pub retry_pass_exact :
    (turn : String → Turn) (now : ℕ) (s : Sender) (j : String)
    → IsOutbox s.outbox
    → s.fn_set ≡ true
    → IsQuiet turn
    → JsMap.get j (retry_pending_outbox turn now s).1.outbox
      ≡ passed_over (turn j) now (JsMap.get j s.outbox)
unfolding retry_pending_outbox get_pending_for_retry delete_expired
retry_pass_exact turn now s j outbox set quiet =
    let p : OutboxEntry → Bool = λ entry. not (is_past_ttl outbox_ttl_s now entry) in
    let b = JsMap.retain p s.outbox in
    let ready = get_pending_for_retry now b in
    let n = count-ready j now b (retain-IsOutbox p s.outbox outbox) in
    let sorted = count-sort_by j (keep (is_ready now) (JsMap.values b)) in
    let found = get-retain p j s.outbox outbox.0 in
    let r : RetryResult = record {
      attempted = 0;
      delivered = 0;
      failed = 0;
      expired = length (keep (is_past_ttl outbox_ttl_s now) (JsMap.values s.outbox));
    } in
    ground (
      arith,
      n,
      sorted,
      found,
      Option-cases (JsMap.get j s.outbox),
      get-retry_loop turn quiet j ready r (record s { outbox = b }) set,
    )

-- Whatever the deliveries do and whatever happens meanwhile, a pass reports as attempted the number
-- of messages that were ready once the expired ones were gone, each counted as delivered or failed,
-- and as expired the number of those that it deleted.
pub retry_counts :
    (turn : String → Turn) (now : ℕ) (s : Sender)
    → let (expired, b) = delete_expired outbox_ttl_s now s.outbox in
      let result = (retry_pending_outbox turn now s).0 in
      (result.attempted ≡ length (get_pending_for_retry now b))
      × (result.delivered + result.failed ≡ result.attempted)
      × (result.expired ≡ expired)
unfolding retry_pending_outbox
retry_counts turn now s =
    let d = delete_expired outbox_ttl_s now s.outbox in
    let r : RetryResult = record { attempted = 0; delivered = 0; failed = 0; expired = d.0 } in
    ground
      (arith, counts-retry_loop turn (get_pending_for_retry now d.1) r (record s { outbox = d.1 }))
