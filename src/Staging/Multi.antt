-- ===== src/Staging/Multi.antt =====
-- packages/core/src/staging/service.ts: `resolveMulti`, which resolves one item into several vaults.
use Prim.Native.String.{◌++◌ as ◌+++◌}
use dina_mobile.Prelude.{
  ℕ, String, Bool, Option, List, [], ◌∷◌, ◌==◌, length, if◌then◌else◌, ok, err,
}
use dina_mobile.Staging.StateMachine.{classifying, pending_unlock}
use dina_mobile.Staging.Inbox.{
  StagingItem, Inbox, Classified, no_targets, Exec, put_item, with_item, clear_body, classify,
  store_if_open, resolved_status, store_item, on_drain,
}

pub record Target : Type 0 where
  pub persona : String
  pub persona_open : Bool

-- The loop that writes to each open vault.
unfoldable pub write_open : StagingItem → Option Classified → List Target → Inbox → Inbox
unfolding store_item on_drain
write_open item classified [] b = b
write_open item classified (t ∷ ts) b =
    write_open item classified ts (store_if_open t.persona_open classified item t.persona b)

unfoldable pub locked_targets : List Target → List String
locked_targets [] = []
locked_targets (t ∷ ts) =
    let rest = locked_targets ts in if t.persona_open then rest else t.persona ∷ rest

unfoldable pub copy_id : String → String → String
copy_id id persona = id +++ ("-" +++ persona)

unfoldable pub locked_copy : String → StagingItem → Option Classified → String → StagingItem
unfolding copy_id
locked_copy id item classified persona = record item {
  id = copy_id id persona;
  persona = persona;
  status = pending_unlock;
  classified_item = classified;
}

-- The loop that makes a record for each locked persona but the first target.
unfoldable pub add_copies :
    String → StagingItem → Option Classified → String → List String → Inbox → Inbox
unfolding put_item locked_copy
add_copies id item classified primary [] b = b
add_copies id item classified primary (p ∷ ps) b =
    add_copies id item classified primary ps
      (if p == primary then b else put_item (copy_id id p) (locked_copy id item classified p) b)

unfoldable pub resolve_targets :
    String → Target → List Target → Option Classified → StagingItem → Exec ℕ
unfolding write_open add_copies locked_targets put_item clear_body
resolve_targets id primary rest classified item b =
    let targets = primary ∷ rest in
    let item' = classify classified item in
    (
      ok (length targets),
      put_item id
          (clear_body (record item' {
            persona = primary.persona;
            status = resolved_status primary.persona_open;
          }))
          (add_copies id item' classified primary.persona (locked_targets targets)
            (write_open item' classified targets b)),
    )

resolve_checked : String → List Target → Option Classified → StagingItem → Exec ℕ
unfolding resolve_targets
resolve_checked id [] classified item b = (err no_targets, b)
resolve_checked id (t ∷ ts) classified item b = resolve_targets id t ts classified item b

unfoldable pub resolve_multi : String → List Target → Option Classified → Exec ℕ
unfolding with_item resolve_checked
resolve_multi id targets classified =
    with_item id classifying (resolve_checked id targets classified)
