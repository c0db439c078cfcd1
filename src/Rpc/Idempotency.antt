-- ===== src/Rpc/Idempotency.antt =====
-- packages/core/src/rpc/idempotency_cache.ts: responses that are kept for repeated requests. `now` is
-- `nowMsFn()`.
use Prim.Native.String.{◌++◌ as ◌+++◌}
use dina_mobile.Prelude.{
  ℕ, ◌+◌, String, Option, none, some, List, [], leb, ltb, nat_eq, if◌then◌else◌, Result, ok, err,
}
use dina_mobile.JsMap
use dina_mobile.JsMap.{JsMap}
use dina_mobile.Rpc.Evict.{evict}

pub record RpcInnerResponse : Type 0 where
  pub status : ℕ
  pub headers : JsMap String
  pub body : List ℕ

pub record CacheEntry : Type 0 where
  pub response : RpcInnerResponse
  pub expires_at_ms : ℕ

pub record IdempotencyCache : Type 0 where
  pub store : JsMap CacheEntry
  pub ttl_ms : ℕ
  pub max_entries : ℕ

pub data ConfigError : Type 0 where
  bad_ttl bad_max_entries : ConfigError

unfoldable pub new_cache : ℕ → ℕ → Result ConfigError IdempotencyCache
new_cache ttl_ms max_entries =
    if nat_eq ttl_ms 0
    then err bad_ttl
    else if nat_eq max_entries 0
    then err bad_max_entries
    else ok (record { store = []; ttl_ms = ttl_ms; max_entries = max_entries })

unfoldable pub cache_key : String → String → String
cache_key sender_did request_id = sender_did +++ ("\0" +++ request_id)

unfoldable pub get_response :
    String → String → ℕ → IdempotencyCache → Option RpcInnerResponse × IdempotencyCache
unfolding cache_key
get_response sender_did request_id now c =
    let key = cache_key sender_did request_id in
    elim (JsMap.get key c.store) [
      | none ↦ (none, c)
      | some entry ↦
          if leb entry.expires_at_ms now
          then (none, record c { store = JsMap.delete key c.store })
          else (some entry.response, c)
    ]

unfoldable pub evict_oldest : ℕ → IdempotencyCache → IdempotencyCache
unfolding evict
evict_oldest now c = record c { store = evict (λ v. v.expires_at_ms) now c.max_entries c.store }

abbrev pub cached : RpcInnerResponse → ℕ → ℕ → CacheEntry
cached response now ttl_ms = record { response = response; expires_at_ms = now + ttl_ms }

unfoldable pub put_response :
    String → String → RpcInnerResponse → ℕ → IdempotencyCache → IdempotencyCache
unfolding evict_oldest cache_key
put_response sender_did request_id response now c =
    let c' : IdempotencyCache = record c {
      store = JsMap.set (cache_key sender_did request_id) (cached response now c.ttl_ms) c.store;
    } in
    if ltb c.max_entries (JsMap.size c'.store) then evict_oldest now c' else c'
