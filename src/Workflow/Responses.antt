-- ===== src/Workflow/Responses.antt =====
-- packages/core/src/workflow/service.ts: where a response is until it is delivered.
use dina_mobile.Prelude.{
  ℕ, String, Bool, true, false, some, List, [], ◌∷◌, ◌++◌, ◌≡◌, ◌⊎◌, inl, inr, arith, ◌==◌, ◌&&◌,
  ◌||◌, any, eq_iff, Option-cases,
}
use dina_mobile.JsSet
use dina_mobile.JsSet.{has-add, has-delete}
use dina_mobile.Workflow.Bridge.{
  Send, Pass, idle, durable, in_memory, Bridge, find_send, remove_send, new_send, begin_send,
  complete_query, release, start_clear, settle_send, time_out, late_settle, drop_stash, end_clear,
  begin_pass, visit_durable, visit_in_memory, pass_at, advance_pass, Step, completes, settles,
  times_out, settles_late, clears, begins, advances, Reach, start, later,
}
use dina_mobile.Workflow.Exclusion.{found-send}

-- A record of the task is being cleared.
abbrev is_clearing : String → List Send → Bool
is_clearing id ss = any (λ s. s.task_id == id && s.clearing) ss

clearing-append :
    (id : String) (ss : List Send) (s : Send)
    → is_clearing id (ss ++ s ∷ []) ≡ (is_clearing id ss || (s.task_id == id && s.clearing))
clearing-append id [] s = ground arith
clearing-append id (x ∷ xs) s = ground (arith, clearing-append id xs s)

clearing-remove :
    (id k : String) (ss : List Send)
    → is_clearing id (remove_send k ss) ≡ true
    → is_clearing id ss ≡ true
unfolding remove_send
clearing-remove id k [] h = h
clearing-remove id k (s ∷ ss) h = ground (arith, clearing-remove id k ss)

found-clearing :
    (id : String) (s : Send) (ss : List Send)
    → find_send id ss ≡ some s
    → s.clearing ≡ true
    → is_clearing id ss ≡ true
unfolding find_send
found-clearing id s [] h c = absurd cc
found-clearing id s (x ∷ xs) h c = ground (arith, found-clearing id s xs)

-- What holds of each task: a response that is not delivered is in the stash or the fallback, and only
-- delivered ones are being cleared or wait for it.
abbrev IsKept : String → Bridge → Type 0
IsKept id b =
    (JsSet.has id b.completed ≡ true
      → JsSet.has id b.delivered || JsSet.has id b.stashes || JsSet.has id b.fallback ≡ true)
    × (is_clearing id b.sends ≡ true → JsSet.has id b.delivered ≡ true)
    × (JsSet.has id b.awaiting_clear ≡ true → JsSet.has id b.delivered ≡ true)

complete-IsKept :
    (id k : String) (write_ok : Bool) (b : Bridge)
    → IsKept id b
    → IsKept id (complete_query k write_ok b)
unfolding complete_query begin_send
complete-IsKept id k write_ok b h = ground (
  arith,
  h,
  clearing-append id b.sends (new_send k write_ok false),
  has-add k id b.completed,
  has-add k id b.stashes,
  has-add k id b.fallback,
)

settle-IsKept :
    (id k : String) (was_delivered : Bool) (b : Bridge)
    → IsKept id b
    → IsKept id (settle_send k was_delivered b)
unfolding settle_send start_clear release JsSet.has
settle-IsKept id k was_delivered b h = elim (Option-cases (find_send k b.sends)) [
  | inl gone ↦ ground arith
  | inr (s, found) ↦ ground (
    arith,
    h,
    clearing-append id (remove_send s.task_id b.sends) (record s { clearing = true }),
    clearing-remove id s.task_id b.sends,
    has-delete s.task_id id b.fallback,
    has-delete s.task_id id b.awaiting_clear,
    eq_iff s.task_id id,
  )
]

time_out-IsKept : (id k : String) (b : Bridge) → IsKept id b → IsKept id (time_out k b)
unfolding time_out release
time_out-IsKept id k b h = elim (Option-cases (find_send k b.sends)) [
  | inl gone ↦ ground arith
  | inr (s, found) ↦ ground (arith, h, clearing-remove id s.task_id b.sends)
]

late_settle-IsKept :
    (id k : String) (was_delivered : Bool) (b : Bridge)
    → IsKept id b
    → IsKept id (late_settle k was_delivered b)
unfolding late_settle JsSet.has
late_settle-IsKept id k was_delivered b h = ground (arith, h)

clear-IsKept :
    (id k : String) (write_ok : Bool) (b : Bridge)
    → IsKept id b
    → IsKept id (end_clear k write_ok b)
unfolding end_clear release drop_stash
clear-IsKept id k write_ok b h = elim (Option-cases (find_send k b.sends)) [
  | inl gone ↦ ground arith
  | inr (s, found) ↦ ground (
    arith,
    h,
    found-send k s b.sends found,
    found-clearing k s b.sends found,
    clearing-remove id s.task_id b.sends,
    has-delete s.task_id id b.stashes,
    has-delete s.task_id id b.awaiting_clear,
    has-add s.task_id id b.awaiting_clear,
    eq_iff s.task_id id,
    eq_iff k id,
  )
]

pass_at-IsKept :
    (id : String) (limit : ℕ) (write_ok : Bool) (p : Pass) (b : Bridge)
    → IsKept id b
    → IsKept id (pass_at limit write_ok p b)
unfolding visit_durable visit_in_memory begin_send drop_stash
pass_at-IsKept id limit write_ok idle b h = h
pass_at-IsKept id limit write_ok (durable []) b h = h
pass_at-IsKept id limit write_ok (durable (k ∷ rest)) b h = ground (
  arith,
  h,
  clearing-append id b.sends (new_send k true true),
  has-delete k id b.stashes,
  has-delete k id b.awaiting_clear,
  eq_iff k id,
)
pass_at-IsKept id limit write_ok (in_memory []) b h = h
pass_at-IsKept id limit write_ok (in_memory (k ∷ rest)) b h =
    ground (arith, h, clearing-append id b.sends (new_send k false true))

Step-IsKept : (id : String) {b c : Bridge} → Step b c → IsKept id b → IsKept id c
Step-IsKept id {b} (completes k write_ok) h = complete-IsKept id k write_ok b h
Step-IsKept id {b} (settles k was_delivered) h = settle-IsKept id k was_delivered b h
Step-IsKept id {b} (times_out k) h = time_out-IsKept id k b h
Step-IsKept id {b} (settles_late k was_delivered) h = late_settle-IsKept id k was_delivered b h
Step-IsKept id {b} (clears k write_ok) h = clear-IsKept id k write_ok b h
Step-IsKept id {b} (begins ids) h = unfold begin_pass in ground (arith, h)
Step-IsKept id {b} (advances limit write_ok) h =
    unfold advance_pass in ground (arith, h, pass_at-IsKept id limit write_ok b.pass b h)

Reach-IsKept : (id : String) {old : List String} {b : Bridge} → Reach old b → IsKept id b
Reach-IsKept id start = unfold JsSet.has in ((λ h. ground arith), (λ h. absurd cc), λ h. absurd cc)
Reach-IsKept id (later r s) = Step-IsKept id s (Reach-IsKept id r)

-- In every interleaving of completions, sends, time-outs, clears and retry passes, whichever of the
-- sends and of the store's writes fail: the response of a completed task is delivered, or it is
-- still in the stash or in the fallback.
pub response_kept :
    (id : String) (old : List String) (b : Bridge)
    → Reach old b
    → JsSet.has id b.completed ≡ true
    → (JsSet.has id b.delivered ≡ true)
      ⊎ (JsSet.has id b.stashes ≡ true)
      ⊎ (JsSet.has id b.fallback ≡ true)
response_kept id old b r done = let h = Reach-IsKept id r in ground (arith, h)
