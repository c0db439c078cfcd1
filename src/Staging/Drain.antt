-- ===== src/Staging/Drain.antt =====
-- packages/core/src/staging/service.ts: what `drainForPersona` writes to the vault and to the inbox.
use mathlib.Core.List.{append_assoc, append-nil}
use dina_mobile.Prelude.{
  Option-cases, Bool-cases, String, none, some, List, [], ◌∷◌, ◌++◌, ◌≡◌, refl, inl, inr, arith,
  sym, ◌∙◌, length, keep, if◌then◌else◌,
}
use dina_mobile.JsMap
use dina_mobile.JsMap.{JsMap, get-update_all}
use dina_mobile.Staging.StateMachine.{stored}
use dina_mobile.Staging.Inbox.{StagingItem, Inbox, Classified, get_item, store_item, on_drain}
use dina_mobile.Staging.Sweep.{drain_for_persona, drain_calls, drain_item, drain_status, waits_for}
use dina_mobile.Staging.Loops.{items-drain_calls}

-- The vault items that the waiting items bring, in their order.
abbrev pub classified_of : String → List StagingItem → List (String × Classified)
classified_of persona [] = []
classified_of persona (a ∷ as') = elim a.classified_item [
  | none ↦ classified_of persona as'
  | some c ↦ (persona, c) ∷ classified_of persona as'
]

vault_writes-drain_calls :
    (persona : String) (ts : List StagingItem) (b : Inbox)
    → (drain_calls persona ts b).vault_writes ≡ b.vault_writes ++ classified_of persona ts
unfolding drain_calls drain_item store_item on_drain
vault_writes-drain_calls persona [] b = sym (append-nil b.vault_writes)
vault_writes-drain_calls persona (t ∷ ts) b =
    vault_writes-drain_calls persona ts (drain_item persona t b)
    ∙ (elim (Option-cases t.classified_item) [
      | inl eq ↦ ground (arith, Bool-cases b.callback_set)
      | inr (c, eq) ↦
          let assoc = append_assoc b.vault_writes ((persona, c) ∷ []) (classified_of persona ts) in
          ground (arith, Bool-cases b.callback_set, assoc)
    ])

-- Draining stores exactly the items that wait for the persona, leaves every other item as it was,
-- writes to the vault what those items were classified as, in the order of the inbox, and reports
-- how many they are.
pub drain_exact :
    (persona : String) (b : Inbox)
    → let waiting = keep (waits_for persona) (JsMap.values b.items) in
      let after = drain_for_persona persona b in
      (after.0 ≡ length waiting)
      × (after.1.vault_writes ≡ b.vault_writes ++ classified_of persona waiting)
      × ((j : String)
          → get_item j after.1
            ≡ JsMap.mapped
                (λ a. if waits_for persona a then record a { status = stored } else a)
                (get_item j b))
unfolding drain_for_persona get_item drain_status
drain_exact persona b =
    let waiting = keep (waits_for persona) (JsMap.values b.items) in
    let started : Inbox = record b { items = JsMap.update_all (drain_status persona) b.items } in
    (
      refl,
      vault_writes-drain_calls persona waiting started,
      λ j. rw items-drain_calls (get-update_all (drain_status persona) j b.items),
    )
