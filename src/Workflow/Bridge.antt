-- ===== src/Workflow/Bridge.antt =====
-- packages/core/src/workflow/service.ts: the sends of the Response Bridge and their retries, in any
-- interleaving, over a store whose writes may fail. A send is known by its task, which is completed
-- once and so has one response; the durable stash of a task is there or not. A send that times out is
-- not stopped: the Bridge no longer awaits it, and it settles later or never. A stash that does not
-- read back is not modelled.
use dina_mobile.Prelude.{
  ℕ, String, Bool, true, false, not, Option, none, some, List, [], ◌∷◌, ◌++◌, ◌==◌, ◌&&◌, ◌||◌, any,
  take, if◌then◌else◌,
}
use dina_mobile.JsSet

-- A send that is awaited, or that was delivered and whose record is being cleared.
pub record Send : Type 0 where
  pub task_id : String
  pub stash_written : Bool
  pub clearing : Bool
  pub by_retry : Bool

-- Where the retry pass is: the tasks that it has still to look at, as it listed them.
pub data Pass : Type 0 where
  idle : Pass
  durable in_memory : List String → Pass

pub record Bridge : Type 0 where
  pub completed : List String
  pub stashes : List String
  pub fallback : List String
  pub in_flight : List String
  pub awaiting_clear : List String
  pub sends : List Send
  pub abandoned : List String
  pub delivered : List String
  pub pass : Pass

unfoldable pub find_send : String → List Send → Option Send
find_send id [] = none
find_send id (s ∷ ss) = let rest = find_send id ss in if s.task_id == id then some s else rest

unfoldable pub remove_send : String → List Send → List Send
remove_send id [] = []
remove_send id (s ∷ ss) = let rest = remove_send id ss in if s.task_id == id then ss else s ∷ rest

abbrev pub new_send : String → Bool → Bool → Send
new_send id stash_written by_retry = record {
  task_id = id;
  stash_written = stash_written;
  clearing = false;
  by_retry = by_retry;
}

-- The claim and the call of the sender.
unfoldable pub begin_send : Send → Bridge → Bridge
begin_send s b = record b { in_flight = JsSet.add s.task_id b.in_flight; sends = b.sends ++ s ∷ [] }

-- A service query's task is completed: the stash is written, or failing that the fallback.
unfoldable pub complete_query : String → Bool → Bridge → Bridge
unfolding begin_send
complete_query id write_ok b =
    if JsSet.has id b.completed
    then b
    else begin_send (new_send id write_ok false) (
        if write_ok
        then record b { completed = JsSet.add id b.completed; stashes = JsSet.add id b.stashes }
        else record b { completed = JsSet.add id b.completed; fallback = JsSet.add id b.fallback })

-- The `finally` of a send.
unfoldable pub release : String → Bridge → Bridge
unfolding remove_send
release id b = record b { sends = remove_send id b.sends; in_flight = JsSet.delete id b.in_flight }

-- The start of `clearBridgeRecord`, which returns if no stash was written.
unfoldable pub start_clear : Send → Bridge → Bridge
unfolding release
start_clear s b =
    if s.stash_written
    then record b {
      sends = remove_send s.task_id b.sends ++ record s { clearing = true } ∷ [];
      fallback = JsSet.delete s.task_id b.fallback;
    }
    else release s.task_id (record b {
      fallback = JsSet.delete s.task_id b.fallback;
      awaiting_clear = JsSet.delete s.task_id b.awaiting_clear;
    })

abbrev pub settle_one : Bool → Option Send → Bridge → Bridge
settle_one was_delivered none b = b
settle_one was_delivered (some s) b =
    if s.clearing
    then b
    else if was_delivered
    then start_clear s (record b { delivered = s.task_id ∷ b.delivered })
    else release s.task_id b

-- The awaited send of the task is delivered, or it fails.
unfoldable pub settle_send : String → Bool → Bridge → Bridge
unfolding start_clear release find_send
settle_send id was_delivered b = settle_one was_delivered (find_send id b.sends) b

abbrev pub time_out_one : Option Send → Bridge → Bridge
time_out_one none b = b
time_out_one (some s) b =
    if s.clearing then b else release s.task_id (record b { abandoned = s.task_id ∷ b.abandoned })

-- `withTimeout` rejects before the send of the task has settled, and the send goes on.
unfoldable pub time_out : String → Bridge → Bridge
unfolding release find_send
time_out id b = time_out_one (find_send id b.sends) b

unfoldable pub remove_one : String → List String → List String
remove_one id [] = []
remove_one id (x ∷ xs) = let rest = remove_one id xs in if x == id then xs else x ∷ rest

-- A send that had timed out settles: a delivery reaches the peer, and the Bridge learns of neither.
unfoldable pub late_settle : String → Bool → Bridge → Bridge
unfolding remove_one
late_settle id was_delivered b =
    if JsSet.has id b.abandoned
    then record b {
      abandoned = remove_one id b.abandoned;
      delivered = if was_delivered then id ∷ b.delivered else b.delivered;
    }
    else b

unfoldable pub drop_stash : String → Bridge → Bridge
drop_stash id b = record b {
  stashes = JsSet.delete id b.stashes;
  awaiting_clear = JsSet.delete id b.awaiting_clear;
}

abbrev pub clear_one : Bool → Option Send → Bridge → Bridge
clear_one write_ok none b = b
clear_one write_ok (some s) b =
    if not s.clearing
    then b
    else release s.task_id (
        if write_ok
        then drop_stash s.task_id b
        else record b { awaiting_clear = JsSet.add s.task_id b.awaiting_clear })

-- The loop of `clearBridgeRecord` ends: an attempt succeeded, or all of them failed.
unfoldable pub end_clear : String → Bool → Bridge → Bridge
unfolding release find_send drop_stash
end_clear id write_ok b = clear_one write_ok (find_send id b.sends) b

abbrev pub is_idle : Pass → Bool
is_idle idle = true
is_idle _ = false

abbrev pub all_in : List String → List String → Bool
all_in [] ys = true
all_in (x ∷ xs) ys = let rest = all_in xs ys in JsSet.has x ys && rest

-- A call of `retryPendingBridges`: it lists some of the stashes, unless a pass is running.
unfoldable pub begin_pass : List String → Bridge → Bridge
begin_pass ids b =
    if is_idle b.pass && all_in ids b.stashes then record b { pass = durable ids } else b

-- The pass awaits its own send.
unfoldable pub is_waiting : Bridge → Bool
is_waiting b = any (λ s. s.by_retry) b.sends

abbrev pub is_skipped : String → Bridge → Bool
is_skipped id b = JsSet.has id b.in_flight || JsSet.has id b.awaiting_clear

-- The pass at one task, with the rest of what it listed.
unfoldable pub visit_durable : Bool → String → List String → Bridge → Bridge
unfolding drop_stash begin_send
visit_durable write_ok id rest b =
    if JsSet.has id b.in_flight
    then record b { pass = durable rest }
    else if JsSet.has id b.awaiting_clear
    then record (if write_ok then drop_stash id b else b) { pass = durable rest }
    else begin_send (new_send id true true) (record b { pass = durable rest })

unfoldable pub visit_in_memory : String → List String → Bridge → Bridge
unfolding begin_send
visit_in_memory id rest b =
    if is_skipped id b
    then record b { pass = in_memory rest }
    else begin_send (new_send id false true) (record b { pass = in_memory rest })

abbrev pub pass_at : ℕ → Bool → Pass → Bridge → Bridge
pass_at limit write_ok idle b = b
pass_at limit write_ok (durable []) b = record b { pass = in_memory (take limit b.fallback) }
pass_at limit write_ok (durable (id ∷ rest)) b = visit_durable write_ok id rest b
pass_at limit write_ok (in_memory []) b = record b { pass = idle }
pass_at limit write_ok (in_memory (id ∷ rest)) b = visit_in_memory id rest b

-- The pass goes on by one task.
unfoldable pub advance_pass : ℕ → Bool → Bridge → Bridge
unfolding visit_durable visit_in_memory is_waiting
advance_pass limit write_ok b = if is_waiting b then b else pass_at limit write_ok b.pass b

pub data Step (b : Bridge) : Bridge → Type 0 where
  completes : (id : String) (write_ok : Bool) → Step b (complete_query id write_ok b)
  settles : (id : String) (was_delivered : Bool) → Step b (settle_send id was_delivered b)
  times_out : (id : String) → Step b (time_out id b)
  settles_late : (id : String) (was_delivered : Bool) → Step b (late_settle id was_delivered b)
  clears : (id : String) (write_ok : Bool) → Step b (end_clear id write_ok b)
  begins : (ids : List String) → Step b (begin_pass ids b)
  advances : (limit : ℕ) (write_ok : Bool) → Step b (advance_pass limit write_ok b)

-- The stashes that an earlier run of the program has left, of completed tasks.
abbrev pub restarted : List String → Bridge
restarted old = record {
  completed = old;
  stashes = old;
  fallback = [];
  in_flight = [];
  awaiting_clear = [];
  sends = [];
  abandoned = [];
  delivered = [];
  pass = idle;
}

pub data Reach (old : List String) : Bridge → Type 0 where
  start : Reach old (restarted old)
  later : {b c : Bridge} → Reach old b → Step b c → Reach old c
