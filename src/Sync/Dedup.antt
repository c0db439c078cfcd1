-- ===== src/Sync/Dedup.antt =====
-- packages/core/src/sync/dedup.ts: the sets of items seen, one for each source. `now` is `Date.now()`.
use dina_mobile.Prelude.{
  ℕ, String, Bool, true, false, Option, none, some, [], leb, if◌then◌else◌, or_default,
}
use dina_mobile.JsMap
use dina_mobile.JsMap.{JsMap}

pub record LruDedupSet : Type 0 where
  pub items : JsMap ℕ
  pub capacity : ℕ

abbrev pub default_capacity : ℕ
default_capacity = 10000

abbrev pub new_set : ℕ → LruDedupSet
new_set capacity = record { items = []; capacity = capacity }

-- Deletes the key and sets it again, which makes it the most recent.
unfoldable pub promote : String → ℕ → JsMap ℕ → JsMap ℕ
promote key ts items = JsMap.set key ts (JsMap.delete key items)

unfoldable pub has : String → LruDedupSet → Bool × LruDedupSet
unfolding promote
has key s = elim (JsMap.get key s.items) [
  | none ↦ (false, s)
  | some ts ↦ (true, record s { items = promote key ts s.items })
]

unfoldable pub evict_if_full : LruDedupSet → JsMap ℕ
evict_if_full s = if leb s.capacity (JsMap.size s.items) then JsMap.drop_oldest s.items else s.items

unfoldable pub add : String → ℕ → LruDedupSet → Bool × LruDedupSet
unfolding promote evict_if_full
add key now s = elim (JsMap.get key s.items) [
  | some ts ↦ (false, record s { items = promote key now s.items })
  | none ↦ (true, record s { items = JsMap.set key now (evict_if_full s) })
]

unfoldable pub clear : LruDedupSet → LruDedupSet
clear s = record s { items = [] }

abbrev pub Sources : Type 0
Sources = JsMap LruDedupSet

-- The set of a source, with the registry that has it.
unfoldable pub get_source_set : String → Option ℕ → Sources → LruDedupSet × Sources
get_source_set source capacity ss = elim (JsMap.get source ss) [
  | some s ↦ (s, ss)
  | none ↦ let s = new_set (or_default capacity default_capacity) in (s, JsMap.set source s ss)
]

unfoldable pub is_duplicate : String → String → Sources → Bool × Sources
unfolding get_source_set
is_duplicate source item_id ss =
    let (s, ss') = get_source_set source none ss in
    let (seen, s') = has item_id s in (seen, JsMap.set source s' ss')

unfoldable pub mark_seen : String → String → ℕ → Sources → Bool × Sources
unfolding get_source_set
mark_seen source item_id now ss =
    let (s, ss') = get_source_set source none ss in
    let (added, s') = add item_id now s in (added, JsMap.set source s' ss')

unfoldable pub source_count : Sources → ℕ
source_count ss = JsMap.size ss
