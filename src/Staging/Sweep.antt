-- ===== src/Staging/Sweep.antt =====
-- packages/core/src/staging/service.ts: `sweep` and `drainForPersona`, the loops over the inbox.
use dina_mobile.Prelude.{
  ℕ, ◌+◌, String, Bool, Option, none, some, List, [], ◌∷◌, ◌==◌, ◌&&◌, if◌then◌else◌, keep, length,
}
use dina_mobile.JsMap
use dina_mobile.JsMap.{JsMap}
use dina_mobile.Staging.StateMachine.{
  received, classifying, stored, pending_unlock, failed, same_status, should_retry,
  is_lease_expired, is_item_expired, staging_max_retries,
}
use dina_mobile.Staging.Inbox.{StagingItem, Inbox, Classified, store_item, on_drain}

pub record SweepResult : Type 0 where
  pub expired : ℕ
  pub lease_reverted : ℕ
  pub requeued : ℕ
  pub dead_lettered : ℕ

abbrev pub no_actions : SweepResult
no_actions = record { expired = 0; lease_reverted = 0; requeued = 0; dead_lettered = 0 }

unfoldable pub back_to_received : StagingItem → StagingItem
back_to_received item = record item { status = received; lease_until = 0 }

-- The body of the loop at one item: what stays of it, and the counts.
unfoldable pub sweep_item : ℕ → StagingItem → SweepResult → Option StagingItem × SweepResult
unfolding back_to_received same_status should_retry is_lease_expired is_item_expired
sweep_item now item n =
    if is_item_expired item.expires_at now
    then (none, record n { expired = n.expired + 1 })
    else if same_status item.status classifying && is_lease_expired item.lease_until now
    then (some (back_to_received item), record n { lease_reverted = n.lease_reverted + 1 })
    else if same_status item.status failed
    then (if should_retry item.retry_count staging_max_retries
        then (some (back_to_received item), record n { requeued = n.requeued + 1 })
        else (some item, record n { dead_lettered = n.dead_lettered + 1 }))
    else (some item, n)

abbrev keep_entry : String → Option StagingItem → JsMap StagingItem → JsMap StagingItem
keep_entry id none items = items
keep_entry id (some item) items = (id, item) ∷ items

unfoldable pub sweep_loop : ℕ → JsMap StagingItem → SweepResult → JsMap StagingItem × SweepResult
unfolding sweep_item
sweep_loop now [] n = ([], n)
sweep_loop now ((id, item) ∷ items) n =
    let (kept, n') = sweep_item now item n in
    let (rest, n'') = sweep_loop now items n' in (keep_entry id kept rest, n'')

unfoldable pub sweep : ℕ → Inbox → SweepResult × Inbox
unfolding sweep_loop
sweep now b = let (items, n) = sweep_loop now b.items no_actions in (n, record b { items = items })

-- An item that waits for the vault of `persona`.
unfoldable pub waits_for : String → StagingItem → Bool
unfolding same_status
waits_for persona item = same_status item.status pending_unlock && item.persona == persona

abbrev pub write_classified : String → Option Classified → Inbox → Inbox
write_classified persona none b = b
write_classified persona (some c) b = store_item persona c b

unfoldable pub drained_item : StagingItem → StagingItem
drained_item item = record item { status = stored }

-- The body of the loop at an item that waits: the write to the vault, and the callback.
unfoldable pub drain_item : String → StagingItem → Inbox → Inbox
unfolding drained_item store_item on_drain
drain_item persona item b =
    on_drain (drained_item item) persona (write_classified persona item.classified_item b)

unfoldable pub drain_calls : String → List StagingItem → Inbox → Inbox
unfolding drain_item
drain_calls persona [] b = b
drain_calls persona (item ∷ items) b = drain_calls persona items (drain_item persona item b)

unfoldable pub drain_status : String → StagingItem → StagingItem
unfolding waits_for drained_item
drain_status persona item = if waits_for persona item then drained_item item else item

-- The loop changes each item alone and writes to the logs in the order of the map.
unfoldable pub drain_for_persona : String → Inbox → ℕ × Inbox
unfolding drain_status drain_calls waits_for
drain_for_persona persona b =
    let waiting = keep (waits_for persona) (JsMap.values b.items) in
    (
      length waiting,
      drain_calls persona waiting
          (record b { items = JsMap.update_all (drain_status persona) b.items }),
    )
