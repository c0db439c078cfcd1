-- ===== src/Staging/Privacy.antt =====
-- packages/core/src/staging/service.ts: what is left of the raw body of an item that was resolved.
use Prim.Native.String.{count, ◌++◌ as ◌+++◌}
use text.Mathlib.TextLemmas.{length-append}
use dina_mobile.Prelude.{
  String, Bool, false, Option, none, some, List, [], ◌∷◌, ◌≡◌, ◌≢◌, ◌⊎◌, refl, inl, inr, arith, ap,
  ◌∙◌, ok, eq_iff, Option-cases,
}
use dina_mobile.JsMap
use dina_mobile.JsMap.{JsMap, get-set, get-set_self}
use dina_mobile.Staging.StateMachine.{classifying, same_status_iff}
use dina_mobile.Staging.Inbox.{
  StagingItem, Inbox, Classified, resolve, clear_body, get_item, classify, resolved_status,
}
use dina_mobile.Staging.Multi.{
  Target, resolve_multi, resolve_targets, write_open, locked_copy, copy_id,
}
use dina_mobile.Staging.Steps.{resolved, items-store_if_open}

-- The body is absent or empty.
abbrev pub HasNoBody : StagingItem → Type 0
HasNoBody a = (JsMap.get "body" a.payload ≡ none) ⊎ (JsMap.get "body" a.payload ≡ some "")

clear_body-HasNoBody : (a : StagingItem) → HasNoBody (clear_body a)
unfolding clear_body JsMap.has
clear_body-HasNoBody a = elim (Option-cases (JsMap.get "body" a.payload)) [
  | inl gone ↦ inl (ground arith)
  | inr (v, found) ↦ inr (ground (arith, get-set_self "body" "" a.payload))
]

-- Where `resolve` returns, the item at its id has no raw body (absent or empty), is in the given
-- persona, and is stored or pending unlock as the persona is open or not.
pub resolve_clears_body :
    (id persona : String) (is_open : Bool) (classified : Option Classified) (b : Inbox)
    → (resolve id persona is_open classified b).0 ≡ ok tt
    → (a : StagingItem) × (get_item id (resolve id persona is_open classified b).1 ≡ some a)
      × HasNoBody a
      × (a.persona ≡ persona)
      × (a.status ≡ resolved_status is_open)
unfolding resolve get_item
resolve_clears_body id persona is_open classified b h = elim (Option-cases (JsMap.get id b.items)) [
  | inl gone ↦ absurd (ground arith)
  | inr (a, found) ↦ (
    resolved persona is_open classified a,
    ground (
      arith,
      same_status_iff a.status classifying,
      get-set_self id (resolved persona is_open classified a) b.items,
      items-store_if_open is_open classified
          (classify classified (record a { persona = persona; status = resolved_status is_open }))
          persona b,
    ),
    clear_body-HasNoBody
        (classify classified (record a { persona = persona; status = resolved_status is_open })),
    unfold clear_body in ground arith,
    unfold clear_body in ground arith,
  )
]

copy_id-ne : (id persona : String) → copy_id id persona ≢ id
unfolding copy_id
copy_id-ne id persona e =
    let dash : count "-" ≡ 1 = refl in
    omega (arith, ap count e, length-append id ("-" +++ persona), length-append "-" persona, dash)

items-write_open :
    (item : StagingItem) (classified : Option Classified) (ts : List Target) (b : Inbox)
    → (write_open item classified ts b).items ≡ b.items
unfolding write_open
items-write_open item classified [] b = refl
items-write_open item classified (t ∷ ts) b =
    items-write_open item classified ts _
    ∙ items-store_if_open t.persona_open classified item t.persona b

-- The item as the two-target call leaves it.
abbrev left_by : Target → Option Classified → StagingItem → StagingItem
left_by first classified a = clear_body (record (classify classified a) {
  persona = first.persona;
  status = resolved_status first.persona_open;
})

items-resolve_targets :
    (id : String) (first second : Target) (classified : Option Classified) (a : StagingItem)
    (b : Inbox)
    → second.persona_open ≡ false
    → second.persona ≢ first.persona
    → (resolve_targets id first (second ∷ []) classified a b).1.items
      ≡ JsMap.set id (left_by first classified a) (
          JsMap.set
            (copy_id id second.persona)
            (locked_copy id (classify classified a) classified second.persona)
            b.items)
unfolding resolve_targets
items-resolve_targets id first second classified a b locked ne = ground (
  arith,
  items-write_open (classify classified a) classified (first ∷ second ∷ []) b,
  eq_iff second.persona first.persona,
  eq_iff first.persona first.persona,
)

-- A classifying item with a raw body is resolved into a first persona, open or locked, and a
-- second, locked one: the copy that waits for the second persona keeps the raw body, which the
-- item itself has lost.
pub copy_keeps_body :
    (id : String) (first second : Target) (classified : Option Classified) (a : StagingItem)
    (b : Inbox) (body : String)
    → get_item id b ≡ some a
    → a.status ≡ classifying
    → JsMap.get "body" a.payload ≡ some body
    → second.persona_open ≡ false
    → second.persona ≢ first.persona
    → (c : StagingItem) × (d : StagingItem) × (get_item
          (copy_id id second.persona)
          (resolve_multi id (first ∷ second ∷ []) classified b).1
        ≡ some c)
      × (JsMap.get "body" c.payload ≡ some body)
      × (get_item id (resolve_multi id (first ∷ second ∷ []) classified b).1 ≡ some d)
      × HasNoBody d
unfolding resolve_multi get_item
copy_keeps_body id first second classified a b body found st has_body locked ne =
    let c : StagingItem = locked_copy id (classify classified a) classified second.persona in
    let d : StagingItem = left_by first classified a in
    let k = copy_id id second.persona in
    let items = items-resolve_targets id first second classified a b locked ne in
    (
      c,
      d,
      ground (
        arith,
        items,
        same_status_iff a.status classifying,
        get-set id k d (JsMap.set k c b.items),
        get-set_self k c b.items,
        eq_iff id k,
        copy_id-ne id second.persona,
      ),
      unfold locked_copy in ground arith,
      ground (
        arith,
        items,
        same_status_iff a.status classifying,
        get-set_self id d (JsMap.set k c b.items),
      ),
      clear_body-HasNoBody (record (classify classified a) {
        persona = first.persona;
        status = resolved_status first.persona_open;
      }),
    )
