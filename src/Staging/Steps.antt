-- ===== src/Staging/Steps.antt =====
-- packages/core/src/staging/service.ts: how any call changes the item at any id.
use dina_mobile.Prelude.{
  ℕ, ◌+◌, String, Bool, true, not, Option, none, some, ◌≡◌, refl, arith, ◌&&◌, ◌||◌, eq_iff, nat_eq,
  leb, ◌⊎◌,
}
use dina_mobile.JsMap
use dina_mobile.JsMap.{JsMap, IsKeyed, get-set, get-update_all}
use dina_mobile.Staging.StateMachine.{
  StagingStatus, received, classifying, pending_approval, failed, same_status, is_valid_transition,
}
use dina_mobile.Staging.Inbox.{
  StagingItem, Inbox, Classified, IngestInput, ingest, claim, resolve, resolved_status,
  store_if_open, classify, clear_body, store_item, on_drain, fail, with_error,
  mark_pending_approval, resume_after_approval_granted, extend_lease,
}
use dina_mobile.Staging.Sweep.{sweep, drain_for_persona}

-- The calls that change the inbox, `resolveMulti` apart.
pub data Op : Type 0 where
  ingest_op : IngestInput → String → ℕ → Op
  claim_op : ℕ → Option ℕ → ℕ → Op
  resolve_op : String → String → Bool → Option Classified → Op
  fail_op : String → Option String → Op
  mark_op : String → String → Op
  resume_op : String → ℕ → Op
  extend_op : String → ℕ → ℕ → Op
  sweep_op : ℕ → Op
  drain_op : String → Op

unfoldable pub step : (JsMap String → String) → Op → Inbox → Inbox
step hash (ingest_op input id now) b = (ingest hash input id now b).1
step hash (claim_op limit lease now) b = (claim limit lease now b).1
step hash (resolve_op id persona is_open classified) b = (resolve id persona is_open classified b).1
step hash (fail_op id message) b = (fail id message b).1
step hash (mark_op id approval_id) b = (mark_pending_approval id approval_id b).1
step hash (resume_op id now) b = (resume_after_approval_granted id now b).1
step hash (extend_op id seconds now) b = (extend_lease id seconds now b).1
step hash (sweep_op now) b = (sweep now b).1
step hash (drain_op persona) b = (drain_for_persona persona b).1

-- The random id of a new item is not in use.
abbrev pub HasFreshId : Op → Inbox → Type 0
HasFreshId (ingest_op input id now) b = JsMap.get id b.items ≡ none
HasFreshId _ b = Unit

-- The retries that an item has after a move from `from` to `to`.
abbrev pub retries_after : StagingStatus → StagingStatus → ℕ → ℕ
retries_after failed to n = n
retries_after from failed n = n + 1
retries_after from to n = n

-- The item stays in its state or moves along the table; a failure counts one retry, nothing else
-- does; and a failed item goes back only while its count is at most 3.
unfoldable pub legal_change : StagingItem → StagingItem → Bool
legal_change a b =
    (same_status a.status b.status || is_valid_transition a.status b.status)
    && nat_eq b.retry_count (retries_after a.status b.status a.retry_count)
    && (not (same_status a.status failed && same_status b.status received) || leb a.retry_count 3)

-- What may become of the item at an id: a new one is received and has no retries, and an item may
-- be deleted.
unfoldable pub legal : Option StagingItem → Option StagingItem → Bool
unfolding legal_change
legal none none = true
legal none (some b) = same_status b.status received && nat_eq b.retry_count 0
legal (some a) none = true
legal (some a) (some b) = legal_change a b

legal_change_self : (a : StagingItem) → legal_change a a ≡ true
unfolding legal_change same_status
legal_change_self a = ground arith

pub legal_self : (o : Option StagingItem) → legal o o ≡ true
unfolding legal
legal_self none = refl
legal_self (some a) = legal_change_self a

pub legal-some : (a u : StagingItem) → legal_change a u ≡ true → legal (some a) (some u) ≡ true
unfolding legal
legal-some a u h = h

pub legal-none : (a : StagingItem) → legal (some a) none ≡ true
unfolding legal
legal-none a = refl

-- A write at `id` that makes a legal change makes a legal change at every id.
pub legal-set :
    (id j : String) (a u : StagingItem) (m : JsMap StagingItem)
    → JsMap.get id m ≡ some a
    → legal_change a u ≡ true
    → legal (JsMap.get j m) (JsMap.get j (JsMap.set id u m)) ≡ true
legal-set id j a u m found h =
    ground (arith, get-set id j u m, eq_iff id j, legal_self (JsMap.get j m), legal-some a u h)

pub items-store_if_open :
    (is_open : Bool) (classified : Option Classified) (item : StagingItem) (persona : String)
    (b : Inbox)
    → (store_if_open is_open classified item persona b).items ≡ b.items
unfolding store_item on_drain
items-store_if_open is_open classified item persona b = ground arith

-- What `resolve` writes at the item `a`.
abbrev pub resolved : String → Bool → Option Classified → StagingItem → StagingItem
resolved persona is_open classified a =
    clear_body
      (classify classified (record a { persona = persona; status = resolved_status is_open }))

pub legal-resolved :
    (persona : String) (is_open : Bool) (classified : Option Classified) (a : StagingItem)
    → a.status ≡ classifying
    → legal_change a (resolved persona is_open classified a) ≡ true
unfolding legal_change clear_body is_valid_transition
legal-resolved persona is_open classified a h = ground arith

pub legal-failed :
    (message : Option String) (a : StagingItem)
    → a.status ≡ classifying
    → legal_change a
        (with_error message (record a { status = failed; retry_count = a.retry_count + 1 }))
      ≡ true
unfolding legal_change is_valid_transition
legal-failed message a h = ground arith

-- A move that the table allows from a state that is not failed to one that is not, with the same
-- count of retries.
pub legal_move :
    (a u : StagingItem)
    → u.retry_count ≡ a.retry_count
    → ((a.status ≡ classifying) × (u.status ≡ pending_approval))
      ⊎ ((a.status ≡ pending_approval) × (u.status ≡ classifying))
      ⊎ ((a.status ≡ received) × (u.status ≡ classifying))
      ⊎ ((a.status ≡ classifying) × (u.status ≡ classifying))
    → legal_change a u ≡ true
unfolding legal_change is_valid_transition
legal_move a u n h = ground arith
