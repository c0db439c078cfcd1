-- ===== src/Staging/Tests.antt =====
-- packages/core/src/staging: the calls on concrete inboxes.
use dina_mobile.Prelude.{◌≤◌, String, true, false, none, some, List, [], ◌∷◌, ◌≡◌, ◌≢◌, refl, ok}
use dina_mobile.JsMap
use dina_mobile.JsMap.{JsMap}
use dina_mobile.Staging.StateMachine.{classifying, pending_unlock, failed}
use dina_mobile.Staging.Inbox.{
  StagingItem, Inbox, IngestInput, empty_inbox, ingested_item, ingest, fail, get_item, claim,
  resolve,
}
use dina_mobile.Staging.Multi.{Target, resolve_multi, copy_id}
use dina_mobile.Staging.Sweep.{sweep}
use dina_mobile.Staging.Steps.{Op, ingest_op, claim_op, fail_op, sweep_op, step, legal}
use dina_mobile.Staging.Legal.{step-legal, run, failures, retries_bounded}
use dina_mobile.Staging.Privacy.{HasNoBody, copy_keeps_body}

abbrev mail : IngestInput
mail = record {
  source = "gmail";
  source_id = "m1";
  producer_id = none;
  payload = some (("body", "secret") ∷ []);
  expires_at = none;
}

abbrev no_hash : JsMap String → String
no_hash m = ""

abbrev item : StagingItem
item = record {
  id = "x";
  source = "gmail";
  source_id = "m1";
  producer_id = "";
  status = classifying;
  persona = "";
  retry_count = 0;
  lease_until = 1000;
  expires_at = 9000;
  created_at = 100;
  payload = ("body", "secret") ∷ [];
  source_hash = "";
  classified_item = none;
  error = none;
  approval_id = none;
}

abbrev inbox : Inbox
inbox = record empty_inbox { items = ("x", item) ∷ [] }

step-legal_example :
    legal (JsMap.get "x" inbox.items) (JsMap.get "x" (step no_hash (fail_op "x" none) inbox).items)
    ≡ true
unfolding JsMap.has
step-legal_example = step-legal no_hash (fail_op "x" none) "x" inbox (refl, tt) tt

abbrev calls : List Op
calls =
    ingest_op mail "x" 100 ∷ claim_op 5 none 200 ∷ fail_op "x" (some "no model") ∷ sweep_op 300 ∷ []

abbrev retried : StagingItem
retried = record (ingested_item mail "x" 100 no_hash) { retry_count = 1; error = some "no model" }

retried_found : JsMap.get "x" (run no_hash calls empty_inbox).items ≡ some retried
unfolding run step ingested_item JsMap.get sweep fail claim ingest JsMap.set
retried_found = refl

retries_bounded_example :
    (failures no_hash "x" calls empty_inbox 0 ≤ 4)
    × (retried.status ≢ failed → failures no_hash "x" calls empty_inbox 0 ≤ 3)
    × (retried.retry_count ≡ failures no_hash "x" calls empty_inbox 0)
unfolding JsMap.get
retries_bounded_example =
    retries_bounded no_hash calls "x" retried (refl, (tt, (tt, (tt, tt)))) retried_found

resolve_returns : (resolve "x" "work" true (some []) inbox).0 ≡ ok tt
unfolding resolve JsMap.get
resolve_returns = refl

abbrev work : Target
work = record { persona = "work"; persona_open = true }

abbrev health : Target
health = record { persona = "health"; persona_open = false }

copy_keeps_body_example :
    (c : StagingItem) × (d : StagingItem) × (get_item
        (copy_id "x" "health")
        (resolve_multi "x" (work ∷ health ∷ []) none inbox).1
      ≡ some c)
    × (JsMap.get "body" c.payload ≡ some "secret")
    × (get_item "x" (resolve_multi "x" (work ∷ health ∷ []) none inbox).1 ≡ some d)
    × HasNoBody d
unfolding get_item JsMap.get
copy_keeps_body_example =
    copy_keeps_body "x" work health none item inbox "secret" refl refl refl refl (λ e. cc)

abbrev waiting_inbox : Inbox
waiting_inbox = record inbox {
  items =
      ("x", record item { status = pending_unlock; persona = "work"; classified_item = some [] })
      ∷ (
        "y",
        record item { status = pending_unlock; persona = "health"; classified_item = some [] },
      )
      ∷ [];
}
