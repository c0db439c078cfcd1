-- ===== src/Workflow/Exclusion.antt =====
-- packages/core/src/workflow/service.ts: the sends of one response, and their claim.
use dina_mobile.Prelude.{
  ℕ, zero, suc, ◌+◌, ◌-◌, ◌≤◌, ◌<◌, String, Bool, true, false, some, List, [], ◌∷◌, ◌++◌, ◌≡◌, refl,
  inl, inr, arith, ◌==◌, take, eq_iff, if◌then◌else◌, Option-cases,
}
use dina_mobile.JsSet
use dina_mobile.JsSet.{has-add, has-delete}
use dina_mobile.Workflow.Bridge.{
  Send, Pass, idle, durable, in_memory, Bridge, find_send, remove_send, new_send, begin_send,
  complete_query, release, start_clear, settle_send, time_out, late_settle, drop_stash, end_clear,
  begin_pass, all_in, visit_durable, visit_in_memory, pass_at, advance_pass, Step, completes,
  settles, times_out, settles_late, clears, begins, advances, Reach, start, later,
}

-- How many sends of the task are awaited.
unfoldable pub count_sends : String → List Send → ℕ
count_sends id [] = 0
count_sends id (s ∷ ss) = let rest = count_sends id ss in if s.task_id == id then suc rest else rest

pub count-append :
    (id : String) (ss : List Send) (s : Send)
    → count_sends id (ss ++ s ∷ [])
      ≡ (if s.task_id == id then count_sends id ss + 1 else count_sends id ss)
unfolding count_sends
count-append id [] s = ground arith
count-append id (x ∷ xs) s = ground (arith, count-append id xs s)

pub count-remove :
    (id k : String) (ss : List Send)
    → count_sends id (remove_send k ss)
      ≡ (if k == id then count_sends id ss - 1 else count_sends id ss)
unfolding count_sends remove_send
count-remove id k [] = ground arith
count-remove id k (s ∷ ss) =
    ground (arith, count-remove id k ss, eq_iff s.task_id k, eq_iff s.task_id id, eq_iff k id)

pub found-send :
    (id : String) (s : Send) (ss : List Send)
    → find_send id ss ≡ some s
    → (s.task_id ≡ id) × (0 < count_sends id ss)
unfolding find_send count_sends
found-send id s [] h = absurd cc
found-send id s (x ∷ xs) h = ground (arith, found-send id s xs, eq_iff x.task_id id)

has-take :
    (id : String) (n : ℕ) (xs : List String)
    → JsSet.has id (take n xs) ≡ true
    → JsSet.has id xs ≡ true
unfolding JsSet.has
has-take id zero xs h = absurd cc
has-take id (suc n) [] h = h
has-take id (suc n) (x ∷ xs) h = ground (arith, has-take id n xs)

has-all_in :
    (id : String) (xs ys : List String)
    → all_in xs ys ≡ true
    → JsSet.has id xs ≡ true
    → JsSet.has id ys ≡ true
unfolding JsSet.has
has-all_in id [] ys all h = absurd cc
has-all_in id (x ∷ xs) ys all h = ground (arith, has-all_in id xs ys, eq_iff x id)

abbrev listed : Pass → List String
listed idle = []
listed (durable ids) = ids
listed (in_memory ids) = ids

-- What holds of each task: one send at most, which holds the claim; and whatever is kept or listed of
-- it, the task is completed.
abbrev IsExclusive : String → Bridge → Type 0
IsExclusive id b =
    (count_sends id b.sends ≤ 1)
    × (0 < count_sends id b.sends → JsSet.has id b.in_flight ≡ true)
    × (0 < count_sends id b.sends → JsSet.has id b.completed ≡ true)
    × (JsSet.has id b.stashes ≡ true → JsSet.has id b.completed ≡ true)
    × (JsSet.has id b.fallback ≡ true → JsSet.has id b.completed ≡ true)
    × (JsSet.has id (listed b.pass) ≡ true → JsSet.has id b.completed ≡ true)

complete-IsExclusive :
    (id k : String) (write_ok : Bool) (b : Bridge)
    → IsExclusive id b
    → IsExclusive id (complete_query k write_ok b)
unfolding complete_query begin_send
complete-IsExclusive id k write_ok b h = ground (
  arith,
  h,
  count-append id b.sends (new_send k write_ok false),
  has-add k id b.in_flight,
  has-add k id b.completed,
  has-add k id b.stashes,
  has-add k id b.fallback,
  eq_iff k id,
)

settle-IsExclusive :
    (id k : String) (was_delivered : Bool) (b : Bridge)
    → IsExclusive id b
    → IsExclusive id (settle_send k was_delivered b)
unfolding settle_send start_clear release
settle-IsExclusive id k was_delivered b h = elim (Option-cases (find_send k b.sends)) [
  | inl gone ↦ ground arith
  | inr (s, found) ↦ ground (
    arith,
    h,
    found-send k s b.sends found,
    count-append id (remove_send s.task_id b.sends) (record s { clearing = true }),
    count-remove id s.task_id b.sends,
    has-delete s.task_id id b.in_flight,
    has-delete s.task_id id b.fallback,
    eq_iff s.task_id id,
  )
]

time_out-IsExclusive :
    (id k : String) (b : Bridge) → IsExclusive id b → IsExclusive id (time_out k b)
unfolding time_out release
time_out-IsExclusive id k b h = elim (Option-cases (find_send k b.sends)) [
  | inl gone ↦ ground arith
  | inr (s, found) ↦ ground (
    arith,
    h,
    found-send k s b.sends found,
    count-remove id s.task_id b.sends,
    has-delete s.task_id id b.in_flight,
    eq_iff s.task_id id,
  )
]

clear-IsExclusive :
    (id k : String) (write_ok : Bool) (b : Bridge)
    → IsExclusive id b
    → IsExclusive id (end_clear k write_ok b)
unfolding end_clear release drop_stash
clear-IsExclusive id k write_ok b h = elim (Option-cases (find_send k b.sends)) [
  | inl gone ↦ ground arith
  | inr (s, found) ↦ ground (
    arith,
    h,
    found-send k s b.sends found,
    count-remove id s.task_id b.sends,
    has-delete s.task_id id b.in_flight,
    has-delete s.task_id id b.stashes,
    eq_iff s.task_id id,
  )
]

begin-IsExclusive :
    (id : String) (ids : List String) (b : Bridge)
    → IsExclusive id b
    → IsExclusive id (begin_pass ids b)
unfolding begin_pass
begin-IsExclusive id ids b h = ground (arith, h, has-all_in id ids b.stashes)

visit_durable-IsExclusive :
    (id k : String) (write_ok : Bool) (rest : List String) (b : Bridge)
    → b.pass ≡ durable (k ∷ rest)
    → IsExclusive id b
    → IsExclusive id (visit_durable write_ok k rest b)
unfolding visit_durable begin_send drop_stash JsSet.has
visit_durable-IsExclusive id k write_ok rest b at h = ground (
  arith,
  h,
  count-append id b.sends (new_send k true true),
  has-add k id b.in_flight,
  has-delete k id b.stashes,
  eq_iff k id,
)

visit_in_memory-IsExclusive :
    (id k : String) (rest : List String) (b : Bridge)
    → b.pass ≡ in_memory (k ∷ rest)
    → IsExclusive id b
    → IsExclusive id (visit_in_memory k rest b)
unfolding visit_in_memory begin_send JsSet.has
visit_in_memory-IsExclusive id k rest b at h = ground (
  arith,
  h,
  count-append id b.sends (new_send k false true),
  has-add k id b.in_flight,
  eq_iff k id,
)

pass_at-IsExclusive :
    (id : String) (limit : ℕ) (write_ok : Bool) (p : Pass) (b : Bridge)
    → b.pass ≡ p
    → IsExclusive id b
    → IsExclusive id (pass_at limit write_ok p b)
pass_at-IsExclusive id limit write_ok idle b at h = h
pass_at-IsExclusive id limit write_ok (durable []) b at h =
    ground (arith, h, has-take id limit b.fallback)
pass_at-IsExclusive id limit write_ok (durable (k ∷ rest)) b at h =
    visit_durable-IsExclusive id k write_ok rest b at h
pass_at-IsExclusive id limit write_ok (in_memory []) b at h = unfold JsSet.has in ground (arith, h)
pass_at-IsExclusive id limit write_ok (in_memory (k ∷ rest)) b at h =
    visit_in_memory-IsExclusive id k rest b at h

Step-IsExclusive : (id : String) {b c : Bridge} → Step b c → IsExclusive id b → IsExclusive id c
Step-IsExclusive id {b} (completes k write_ok) h = complete-IsExclusive id k write_ok b h
Step-IsExclusive id {b} (settles k was_delivered) h = settle-IsExclusive id k was_delivered b h
Step-IsExclusive id {b} (times_out k) h = time_out-IsExclusive id k b h
Step-IsExclusive id {b} (settles_late k was_delivered) h = unfold late_settle in ground (arith, h)
Step-IsExclusive id {b} (clears k write_ok) h = clear-IsExclusive id k write_ok b h
Step-IsExclusive id {b} (begins ids) h = begin-IsExclusive id ids b h
Step-IsExclusive id {b} (advances limit write_ok) h =
    unfold advance_pass in ground (arith, h, pass_at-IsExclusive id limit write_ok b.pass b refl h)

Reach-IsExclusive : (id : String) {old : List String} {b : Bridge} → Reach old b → IsExclusive id b
Reach-IsExclusive id start =
    unfold count_sends JsSet.has in
    (
      omega arith,
      (λ h. absurd (omega arith)),
      (λ h. absurd (omega arith)),
      (λ h. h),
      (λ h. absurd cc),
      λ h. absurd cc,
    )
Reach-IsExclusive id (later r s) = Step-IsExclusive id s (Reach-IsExclusive id r)

-- How many of the ids are this one.
unfoldable pub copies : String → List String → ℕ
copies id [] = 0
copies id (x ∷ xs) = let rest = copies id xs in if x == id then suc rest else rest

no_copies : (id : String) (xs : List String) → JsSet.has id xs ≡ false → copies id xs ≡ 0
unfolding copies JsSet.has
no_copies id [] h = refl
no_copies id (x ∷ xs) h = ground (arith, no_copies id xs)

-- The sends of the task that have not settled: those that are awaited, and those that timed out.
unfoldable pub under_way : String → Bridge → ℕ
under_way id b = count_sends id b.sends + copies id b.abandoned

-- In every interleaving of completions, sends that are delivered, fail or time out (and may settle
-- after that), clears that succeed or fail and retry passes, from any stashes that an earlier run has
-- left: of a task the Bridge awaits at most one send, which holds the task's claim; and while no send
-- of the task that has timed out still runs, no two sends of it are under way.
pub one_send_at_a_time :
    (id : String) (old : List String) (b : Bridge)
    → Reach old b
    → (count_sends id b.sends ≤ 1)
      × (0 < count_sends id b.sends → JsSet.has id b.in_flight ≡ true)
      × (JsSet.has id b.abandoned ≡ false → under_way id b ≤ 1)
unfolding under_way
one_send_at_a_time id old b r =
    let h = Reach-IsExclusive id r in
    (h.0, h.1, λ settled. ground (arith, h.0, no_copies id b.abandoned settled))
