-- ===== src/Staging/Inbox.antt =====
-- packages/core/src/staging/service.ts: the inbox, and the calls on one item. Random ids and hashes
-- come in as arguments, `now` is `nowSeconds()`; the fields of a payload are texts. The calls of the
-- vault's `storeItem`, whose errors the code drops, and of the drain callback, which returns, are
-- written to logs. No SQL repository is wired.
use Prim.Native.String.{◌++◌ as ◌+++◌}
use dina_mobile.Prelude.{
  ℕ, zero, suc, ◌+◌, String, Bool, true, false, not, Option, none, some, List, [], ◌∷◌, ◌++◌, ◌==◌,
  ◌&&◌, max, if◌then◌else◌, or_default, keep, Result, ok, err,
}
use dina_mobile.JsMap
use dina_mobile.JsMap.{JsMap}
use dina_mobile.Staging.StateMachine.{
  StagingStatus, received, classifying, stored, pending_unlock, pending_approval, failed,
  same_status, staging_lease_duration_s, staging_item_ttl_s,
}

-- An enriched vault item.
abbrev pub Classified : Type 0
Classified = JsMap String

pub record StagingItem : Type 0 where
  pub id : String
  pub source : String
  pub source_id : String
  pub producer_id : String
  pub status : StagingStatus
  pub persona : String
  pub retry_count : ℕ
  pub lease_until : ℕ
  pub expires_at : ℕ
  pub created_at : ℕ
  pub payload : JsMap String
  pub source_hash : String
  pub classified_item : Option Classified
  pub error : Option String
  pub approval_id : Option String

pub record Inbox : Type 0 where
  pub items : JsMap StagingItem
  pub dedup_index : JsMap String
  pub callback_set : Bool
  pub vault_writes : List (String × Classified)
  pub drained : List (StagingItem × String)

abbrev pub empty_inbox : Inbox
empty_inbox = record {
  items = [];
  dedup_index = [];
  callback_set = false;
  vault_writes = [];
  drained = [];
}

pub data StagingError : Type 0 where
  not_found : StagingError
  wrong_status : StagingStatus → StagingError
  no_targets : StagingError

abbrev pub Exec : Type 0 → Type 0
Exec A = Inbox → Result StagingError A × Inbox

pub record IngestInput : Type 0 where
  pub source : String
  pub source_id : String
  pub producer_id : Option String
  pub payload : Option (JsMap String)
  pub expires_at : Option ℕ

unfoldable pub dedup_key : IngestInput → String
dedup_key input =
    or_default input.producer_id "" +++ ("|" +++ (input.source +++ ("|" +++ input.source_id)))

unfoldable pub ingested_item : IngestInput → String → ℕ → (JsMap String → String) → StagingItem
ingested_item input id now hash = record {
  id = id;
  source = input.source;
  source_id = input.source_id;
  producer_id = or_default input.producer_id "";
  status = received;
  persona = "";
  retry_count = 0;
  lease_until = 0;
  expires_at = or_default input.expires_at (now + staging_item_ttl_s);
  created_at = now;
  payload = or_default input.payload [];
  source_hash = hash (or_default input.payload []);
  classified_item = none;
  error = none;
  approval_id = none;
}

-- The id that the index has for the key, if it is not "" and its item is still there.
unfoldable pub existing_item : Option String → JsMap StagingItem → Option String
existing_item none items = none
existing_item (some id) items = if not (id == "") && JsMap.has id items then some id else none

unfoldable pub ingest :
    (JsMap String → String) → IngestInput → String → ℕ → Inbox → (String × Bool) × Inbox
unfolding existing_item ingested_item
ingest hash input id now b =
    elim (existing_item (JsMap.get (dedup_key input) b.dedup_index) b.items) [
      | some existing ↦ ((existing, true), b)
      | none ↦ (
        (id, false),
        record b {
          items = JsMap.set id (ingested_item input id now hash) b.items;
          dedup_index = JsMap.set (dedup_key input) id b.dedup_index;
        },
      )
    ]

unfoldable pub claimed_item : ℕ → ℕ → StagingItem → StagingItem
claimed_item now lease item = record item { status = classifying; lease_until = now + lease }

-- The loop of `claim`; the number is how many more may be claimed.
unfoldable pub claim_loop : ℕ → ℕ → ℕ → JsMap StagingItem → JsMap StagingItem × List StagingItem
unfolding claimed_item same_status
claim_loop zero now lease items = (items, [])
claim_loop (suc left) now lease [] = ([], [])
claim_loop (suc left) now lease ((id, item) ∷ items) = elim (same_status item.status received) [
  | false ↦
      let (rest, claimed) = claim_loop (suc left) now lease items in ((id, item) ∷ rest, claimed)
  | true ↦
      let (rest, claimed) = claim_loop left now lease items in
      ((id, claimed_item now lease item) ∷ rest, claimed_item now lease item ∷ claimed)
]

unfoldable pub claim : ℕ → Option ℕ → ℕ → Inbox → List StagingItem × Inbox
unfolding claim_loop
claim limit lease now b =
    let (items, claimed) =
      claim_loop limit now (or_default lease staging_lease_duration_s) b.items in
    (claimed, record b { items = items })

-- An assignment to fields of the item at `id`, which becomes `item`.
unfoldable pub put_item : String → StagingItem → Inbox → Inbox
put_item id item b = record b { items = JsMap.set id item b.items }

-- The guard that most calls share: the item is there and in the state `status`.
unfoldable pub with_item : {A : Type 0} → String → StagingStatus → (StagingItem → Exec A) → Exec A
unfolding same_status
with_item id status body b = elim (JsMap.get id b.items) [
  | none ↦ (err not_found, b)
  | some item ↦
      if same_status item.status status then body item b else (err (wrong_status item.status), b)
]

unfoldable pub store_item : String → Classified → Inbox → Inbox
store_item persona classified b = record b {
  vault_writes = b.vault_writes ++ (persona, classified) ∷ [];
}

unfoldable pub on_drain : StagingItem → String → Inbox → Inbox
on_drain item persona b =
    if b.callback_set then record b { drained = b.drained ++ (item, persona) ∷ [] } else b

-- `if (item.data.body !== undefined) item.data = { ...item.data, body: '' }`
unfoldable pub clear_body : StagingItem → StagingItem
clear_body item =
    if JsMap.has "body" item.payload
    then record item { payload = JsMap.set "body" "" item.payload }
    else item

-- `if (classified) item.classified_item = classified`
abbrev pub classify : Option Classified → StagingItem → StagingItem
classify none item = item
classify (some c) item = record item { classified_item = some c }

abbrev pub store_if_open : Bool → Option Classified → StagingItem → String → Inbox → Inbox
store_if_open true (some c) item persona b = on_drain item persona (store_item persona c b)
store_if_open _ _ item persona b = b

abbrev pub resolved_status : Bool → StagingStatus
resolved_status true = stored
resolved_status false = pending_unlock

unfoldable pub resolve : String → String → Bool → Option Classified → Exec Unit
unfolding with_item put_item store_item on_drain clear_body
resolve id persona persona_open classified = with_item id classifying λ item b.
    let item' =
      classify classified
        (record item { persona = persona; status = resolved_status persona_open }) in
    (ok tt, put_item id (clear_body item') (store_if_open persona_open classified item' persona b))

abbrev pub with_error : Option String → StagingItem → StagingItem
with_error none item = item
with_error (some message) item =
    if message == "" then item else record item { error = some message }

unfoldable pub fail : String → Option String → Exec Unit
unfolding with_item put_item
fail id error_message = with_item id classifying λ item b. (
  ok tt,
  put_item id
      (with_error error_message
        (record item { status = failed; retry_count = item.retry_count + 1 }))
      b,
)

unfoldable pub mark_pending_approval : String → String → Exec Unit
unfolding with_item put_item
mark_pending_approval id approval_id = with_item id classifying λ item b. (
  ok tt,
  put_item id (record item { status = pending_approval; approval_id = some approval_id }) b,
)

unfoldable pub resume_after_approval_granted : String → ℕ → Exec Unit
unfolding with_item put_item
resume_after_approval_granted id now = with_item id pending_approval λ item b. (
  ok tt,
  put_item id (record item { status = classifying; lease_until = now + staging_lease_duration_s })
      b,
)

unfoldable pub extend_lease : String → ℕ → ℕ → Exec Unit
unfolding with_item put_item
extend_lease id extension_seconds now = with_item id classifying λ item b. (
  ok tt,
  put_item id (record item { lease_until = max item.lease_until now + extension_seconds }) b,
)

unfoldable pub get_item : String → Inbox → Option StagingItem
get_item id b = JsMap.get id b.items

unfoldable pub inbox_size : Inbox → ℕ
inbox_size b = JsMap.size b.items

unfoldable pub list_by_status : StagingStatus → Inbox → List StagingItem
unfolding same_status
list_by_status status b = keep (λ item. same_status item.status status) (JsMap.values b.items)

unfoldable pub get_status_for_owner : String → String → Inbox → Option (StagingStatus × String)
get_status_for_owner id origin_did b = elim (JsMap.get id b.items) [
  | none ↦ none
  | some item ↦ if item.producer_id == origin_did then some (item.status, item.persona) else none
]
