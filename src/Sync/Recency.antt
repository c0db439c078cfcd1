-- ===== src/Sync/Recency.antt =====
-- packages/core/src/sync/dedup.ts: what a set keeps.
use dina_mobile.Prelude.{
  ℕ, ◌+◌, ◌≤◌, ◌<◌, String, Bool, true, none, some, List, [], ◌∷◌, ◌++◌, ◌≡◌, inl, inr, refl, ap,
  ◌∙◌, arith, eq_refl, if◌then◌else◌, is_some, Option-cases,
}
use dina_mobile.JsMap
use dina_mobile.JsMap.{
  JsMap, IsKeyed, get-set_self, get-set, get-delete, size-set, size-delete-le, size-drop_oldest,
  IsKeyed-set, IsKeyed-delete, IsKeyed-drop_oldest,
}
use dina_mobile.Sync.Dedup.{LruDedupSet, promote, has, evict_if_full, add, clear}

pub data DedupOp : Type 0 where
  op_has : String → DedupOp
  op_add : String → ℕ → DedupOp
  op_clear : DedupOp

unfoldable pub dedup_step : DedupOp → LruDedupSet → LruDedupSet
unfolding has add clear
dedup_step (op_has key) s = (has key s).1
dedup_step (op_add key now) s = (add key now s).1
dedup_step op_clear s = clear s

unfoldable pub dedup_run : List DedupOp → LruDedupSet → LruDedupSet
unfolding dedup_step
dedup_run [] s = s
dedup_run (op ∷ ops) s = dedup_run ops (dedup_step op s)

-- The keys in the order of their last use, oldest first.
unfoldable pub keys : JsMap ℕ → List String
keys [] = []
keys ((k, v) ∷ m) = k ∷ keys m

size-delete_found :
    (key : String) (m : JsMap ℕ)
    → is_some (JsMap.get key m) ≡ true
    → JsMap.size (JsMap.delete key m) < JsMap.size m
unfolding JsMap.get JsMap.delete
size-delete_found key [] h = absurd cc
size-delete_found key ((k, v) ∷ m) h = ground (arith, size-delete_found key m, size-delete-le key m)

size-set-le :
    (key : String) (v : ℕ) (m : JsMap ℕ) → JsMap.size (JsMap.set key v m) ≤ JsMap.size m + 1
size-set-le key v m = ground (arith, size-set key v m)

size-promote-le :
    (key : String) (ts : ℕ) (m : JsMap ℕ)
    → is_some (JsMap.get key m) ≡ true
    → JsMap.size (promote key ts m) ≤ JsMap.size m
unfolding promote
size-promote-le key ts m h =
    omega (arith, size-set-le key ts (JsMap.delete key m), size-delete_found key m h)

dedup_step-bounded :
    (op : DedupOp) (s : LruDedupSet)
    → 0 < s.capacity
    → JsMap.size s.items ≤ s.capacity
    → (JsMap.size (dedup_step op s).items ≤ s.capacity) × ((dedup_step op s).capacity ≡ s.capacity)
unfolding dedup_step has add clear evict_if_full
dedup_step-bounded (op_has key) s pos h = elim (Option-cases (JsMap.get key s.items)) [
  | inl gone ↦ ground arith
  | inr (ts, found) ↦ ground (arith, size-promote-le key ts s.items)
]
dedup_step-bounded (op_add key now) s pos h = elim (Option-cases (JsMap.get key s.items)) [
  | inl gone ↦ ground (
    arith,
    size-set-le key now s.items,
    size-set-le key now (JsMap.drop_oldest s.items),
    size-drop_oldest s.items,
  )
  | inr (ts, found) ↦ ground (arith, size-promote-le key now s.items)
]
dedup_step-bounded op_clear s pos h = (omega arith, refl)

-- Whatever is asked of a set and added to it, it never holds more items than its capacity, where the
-- capacity is positive and it does not do so at the start.
pub dedup_run-bounded :
    (ops : List DedupOp) (s : LruDedupSet)
    → 0 < s.capacity
    → JsMap.size s.items ≤ s.capacity
    → JsMap.size (dedup_run ops s).items ≤ s.capacity
unfolding dedup_run
dedup_run-bounded [] s pos h = h
dedup_run-bounded (op ∷ ops) s pos h =
    let (le, same) = dedup_step-bounded op s pos h in
    omega (
      arith,
      same,
      dedup_run-bounded ops (dedup_step op s) (omega (arith, same)) (omega (arith, same, le)),
    )

keys-set_missing :
    (key : String) (v : ℕ) (m : JsMap ℕ)
    → JsMap.get key m ≡ none
    → keys (JsMap.set key v m) ≡ keys m ++ key ∷ []
unfolding keys JsMap.set JsMap.get
keys-set_missing key v [] h = refl
keys-set_missing key v ((k, w) ∷ m) h = ground (arith, keys-set_missing key v m)

drop_oldest-missing :
    (key : String) (m : JsMap ℕ)
    → JsMap.get key m ≡ none
    → JsMap.get key (JsMap.drop_oldest m) ≡ none
unfolding JsMap.get JsMap.drop_oldest
drop_oldest-missing key [] h = refl
drop_oldest-missing key ((k, v) ∷ m) h = ground arith

evict-missing :
    (key : String) (s : LruDedupSet)
    → JsMap.get key s.items ≡ none
    → JsMap.get key (evict_if_full s) ≡ none
unfolding evict_if_full
evict-missing key s h = ground (arith, drop_oldest-missing key s.items h)

-- After an item is added, whether it was there or not, it is in the set with the time of the call, and
-- it is the last in the order in which items are evicted.
pub add-most_recent :
    (key : String) (now : ℕ) (s : LruDedupSet)
    → let s' = (add key now s).1 in
      (JsMap.get key s'.items ≡ some now)
      × ((before : List String) × (keys s'.items ≡ before ++ key ∷ []))
unfolding add promote evict_if_full
add-most_recent key now s = elim (Option-cases (JsMap.get key s.items)) [
  | inr (ts, found) ↦
      rw (found, add)
        (
          get-set_self key now (JsMap.delete key s.items),
          (
            _,
            keys-set_missing key now (JsMap.delete key s.items) (
                get-delete key key s.items
                ∙ ap (λ (b : Bool). if b then none else JsMap.get key s.items) (eq_refl key)),
          ),
        )
  | inl gone ↦
      rw (gone, add)
        (get-set_self key now _, (_, keys-set_missing key now _ (evict-missing key s gone)))
]
