-- ===== src/Rpc/Tests.antt =====
-- packages/core/src/rpc: the caches on concrete calls.
use dina_mobile.Prelude.{◌≤◌, ◌<◌, true, none, some, List, [], ◌∷◌, ◌≡◌, refl}
use dina_mobile.JsMap
use dina_mobile.Rpc.Evict.{evict, evict_to}
use dina_mobile.Rpc.Idempotency.{
  RpcInnerResponse, CacheEntry, IdempotencyCache, cache_key, get_response, put_response,
  evict_oldest,
}
use dina_mobile.Rpc.Replies.{
  CacheOp, op_get, op_put, apply, apply_all, last_put, ArePlain, replies_refine,
}
use dina_mobile.Rpc.Keys.{has_no_nul}
use dina_mobile.Rpc.NonceReplay.{NonceReplayCache, accept}
use dina_mobile.Rpc.Sightings.{Sighting, accept_one}

abbrev reply : RpcInnerResponse
reply = record { status = 200; headers = []; body = 7 ∷ [] }

abbrev empty_cache : IdempotencyCache
empty_cache = record { store = []; ttl_ms = 1000; max_entries = 1 }

abbrev calls : List CacheOp
calls = op_put "did:a" "r1" reply 100 ∷ op_put "did:a" "r2" reply 200 ∷ op_get "did:b" "r1" 300 ∷ []

answered : (get_response "did:a" "r2" 400 (apply_all calls empty_cache)).0 ≡ some reply
unfolding get_response apply_all apply put_response evict_oldest evict evict_to cache_key JsMap.get
    JsMap.set JsMap.retain
answered = refl

calls-ArePlain : ArePlain calls
unfolding has_no_nul
calls-ArePlain = (refl, (refl, tt))

replies_refine_example :
    (JsMap.size (apply_all calls empty_cache).store ≤ (apply_all calls empty_cache).max_entries)
    × (e : CacheEntry) × (last_put 1000 "did:a" "r2" calls none ≡ some e)
    × (e.response ≡ reply)
    × (400 < e.expires_at_ms)
unfolding has_no_nul
replies_refine_example =
    replies_refine calls empty_cache "did:a" "r2" 400 reply refl calls-ArePlain refl answered

abbrev seen_none : NonceReplayCache
seen_none = record { seen = []; ttl_ms = 1000; max_entries = 3 }

abbrev first : Sighting
first = record { sender_did = "did:a"; recipient_did = "did:b"; nonce = "n"; at = 100 }

abbrev other : Sighting
other = record { sender_did = "did:c"; recipient_did = "did:b"; nonce = "n"; at = 200 }

accepted : (accept_one first seen_none).0 ≡ true
unfolding accept JsMap.get
accepted = refl
