-- ===== src/Rpc/Sightings.antt =====
-- packages/core/src/rpc/nonce_replay_cache.ts: what becomes of a message that comes again.
use dina_mobile.Prelude.{
  ℕ, ◌+◌, ◌≤◌, ◌<◌, String, Bool, true, false, some, List, [], ◌∷◌, ◌≡◌, arith, eq_iff, length, All,
  Option-cases,
}
use dina_mobile.JsMap
use dina_mobile.JsMap.{JsMap, get-set, get-delete, size-set, size-delete-le}
use dina_mobile.Rpc.NonceReplay.{NonceReplayCache, nonce_key, evict_oldest, remember, accept}

-- A message as the cache sees it: sender, recipient and nonce, and the time of its arrival.
pub record Sighting : Type 0 where
  pub sender_did : String
  pub recipient_did : String
  pub nonce : String
  pub at : ℕ

abbrev pub accept_one : Sighting → NonceReplayCache → Bool × NonceReplayCache
accept_one s c = accept s.sender_did s.recipient_did s.nonce s.at c

unfoldable pub accept_all : List Sighting → NonceReplayCache → NonceReplayCache
accept_all [] c = c
accept_all (s ∷ ss) c = accept_all ss (accept_one s c).1

abbrev key_of : Sighting → String
key_of s = nonce_key s.sender_did s.recipient_did s.nonce

config-accept :
    (s : Sighting) (c : NonceReplayCache)
    → ((accept_one s c).1.ttl_ms ≡ c.ttl_ms) × ((accept_one s c).1.max_entries ≡ c.max_entries)
unfolding accept remember evict_oldest
config-accept s c = (
  ground (arith, Option-cases (JsMap.get (key_of s) c.seen)),
  ground (arith, Option-cases (JsMap.get (key_of s) c.seen)),
)

-- While the cache has room for all sightings, each takes one entry at most.
grows-accept :
    (s : Sighting) (c : NonceReplayCache)
    → JsMap.size c.seen < c.max_entries
    → JsMap.size (accept_one s c).1.seen ≤ JsMap.size c.seen + 1
unfolding accept remember JsMap.has
grows-accept s c h =
    let k = key_of s in
    let t = s.at + c.ttl_ms in
    ground (
      arith,
      Option-cases (JsMap.get k c.seen),
      size-set k t c.seen,
      size-set k t (JsMap.delete k c.seen),
      size-delete-le k c.seen,
    )

keeps-accept :
    (j : String) (deadline : ℕ) (s : Sighting) (c : NonceReplayCache)
    → JsMap.size c.seen < c.max_entries
    → s.at < deadline
    → JsMap.get j c.seen ≡ some deadline
    → JsMap.get j (accept_one s c).1.seen ≡ some deadline
unfolding accept remember JsMap.has
keeps-accept j deadline s c room before found =
    let k = key_of s in
    let t = s.at + c.ttl_ms in
    ground (
      arith,
      Option-cases (JsMap.get k c.seen),
      size-set k t c.seen,
      size-set k t (JsMap.delete k c.seen),
      size-delete-le k c.seen,
      get-set k j t c.seen,
      get-set k j t (JsMap.delete k c.seen),
      get-delete k j c.seen,
      eq_iff k j,
    )

keeps-accept_all :
    (j : String) (deadline : ℕ) (ss : List Sighting) (c : NonceReplayCache)
    → JsMap.size c.seen + length ss ≤ c.max_entries
    → All (λ s. s.at < deadline) ss
    → JsMap.get j c.seen ≡ some deadline
    → JsMap.get j (accept_all ss c).seen ≡ some deadline
unfolding accept_all
keeps-accept_all j deadline [] c room before found = found
keeps-accept_all j deadline (s ∷ ss) c room before found =
    keeps-accept_all j deadline ss (accept_one s c).1
      (ground (arith, grows-accept s c, config-accept s c)) before.1
      (keeps-accept j deadline s c (omega arith) before.0 found)

accepted-seen :
    (s : Sighting) (c : NonceReplayCache)
    → JsMap.size c.seen < c.max_entries
    → (accept_one s c).0 ≡ true
    → JsMap.get (key_of s) (accept_one s c).1.seen ≡ some (s.at + c.ttl_ms)
unfolding accept remember JsMap.has
accepted-seen s c room h =
    let k = key_of s in
    let t = s.at + c.ttl_ms in
    ground (
      arith,
      Option-cases (JsMap.get k c.seen),
      size-set k t c.seen,
      size-set k t (JsMap.delete k c.seen),
      size-delete-le k c.seen,
      get-set k k t c.seen,
      get-set k k t (JsMap.delete k c.seen),
      eq_iff k k,
    )

-- The same message, at a time before the deadline of its first sighting, is not accepted again, whatever
-- sightings came between, all before that deadline, if the cache has room for them all.
pub sighting_once :
    (s : Sighting) (between : List Sighting) (again : ℕ) (c : NonceReplayCache)
    → (accept_one s c).0 ≡ true
    → JsMap.size c.seen + length between < c.max_entries
    → All (λ x. x.at < s.at + c.ttl_ms) between
    → again < s.at + c.ttl_ms
    → (accept_one (record s { at = again }) (accept_all between (accept_one s c).1)).0 ≡ false
unfolding accept
sighting_once s between again c accepted room before late =
    let first = accepted-seen s c (omega arith) accepted in
    let still =
      keeps-accept_all (key_of s) (s.at + c.ttl_ms) between (accept_one s c).1
        (ground (arith, grows-accept s c, config-accept s c)) before first in
    ground arith
