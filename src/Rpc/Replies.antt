-- ===== src/Rpc/Replies.antt =====
-- packages/core/src/rpc/idempotency_cache.ts: what the cache answers.
use dina_mobile.Prelude.{
  subst, sym, ap, ◌∙◌, ◌==◌, ◌&&◌, if◌then◌else◌, refl, Option, none, true, ℕ, ◌≤◌, ◌<◌, String,
  some, List, [], ◌∷◌, ◌≡◌, inl, inr, arith, eq_iff, Option-cases,
}
use dina_mobile.JsMap
use dina_mobile.JsMap.{
  JsMap, IsKeyed, get-set, get-delete, size-set, size-delete-le, IsKeyed-set, IsKeyed-delete,
}
use dina_mobile.Rpc.Evict.{size-evict, IsKeyed-evict, get-evict}
use dina_mobile.Rpc.Keys.{has_no_nul, cache_key-same}
use dina_mobile.Rpc.Idempotency.{
  RpcInnerResponse, CacheEntry, cached, IdempotencyCache, cache_key, get_response, put_response,
  evict_oldest,
}

-- The calls of the cache.
pub data CacheOp : Type 0 where
  op_get : String → String → ℕ → CacheOp
  op_put : String → String → RpcInnerResponse → ℕ → CacheOp

unfoldable pub apply : CacheOp → IdempotencyCache → IdempotencyCache
unfolding get_response
apply (op_get sender_did request_id now) c = (get_response sender_did request_id now c).1
apply (op_put sender_did request_id response now) c =
    put_response sender_did request_id response now c

unfoldable pub apply_all : List CacheOp → IdempotencyCache → IdempotencyCache
apply_all [] c = c
apply_all (op ∷ ops) c = apply_all ops (apply op c)

-- What the store is a part of: the last response that was put under each key, without limits.
unfoldable last_puts : ℕ → List CacheOp → JsMap CacheEntry → JsMap CacheEntry
last_puts ttl_ms [] m = m
last_puts ttl_ms (op_get _ _ _ ∷ ops) m = last_puts ttl_ms ops m
last_puts ttl_ms (op_put sender_did request_id response now ∷ ops) m =
    last_puts ttl_ms ops
      (JsMap.set (cache_key sender_did request_id) (cached response now ttl_ms) m)

abbrev IsPartOf : JsMap CacheEntry → JsMap CacheEntry → Type 0
IsPartOf a b = (j : String) (e : CacheEntry) → JsMap.get j a ≡ some e → JsMap.get j b ≡ some e

-- A cache within its limit, each key once, that holds a part of what it stands for.
abbrev IsCacheOf : JsMap CacheEntry → IdempotencyCache → Type 0
IsCacheOf m c = IsKeyed c.store × (JsMap.size c.store ≤ c.max_entries) × IsPartOf c.store m

get-IsCacheOf :
    (sender_did request_id : String) (now : ℕ) (m : JsMap CacheEntry) (c : IdempotencyCache)
    → IsCacheOf m c
    → IsCacheOf m (get_response sender_did request_id now c).1
unfolding get_response
get-IsCacheOf sender_did request_id now m c h =
    let k = cache_key sender_did request_id in
    (
      ground (arith, IsKeyed-delete k c.store h.0, Option-cases (JsMap.get k c.store)),
      ground (arith, size-delete-le k c.store, Option-cases (JsMap.get k c.store)),
      λ j e found.
          ground (arith, h.2 j e, get-delete k j c.store, Option-cases (JsMap.get k c.store)),
    )

put-IsCacheOf :
    (sender_did request_id : String) (response : RpcInnerResponse) (now : ℕ) (m : JsMap CacheEntry)
    (c : IdempotencyCache)
    → IsCacheOf m c
    → IsCacheOf
        (JsMap.set (cache_key sender_did request_id) (cached response now c.ttl_ms) m)
        (put_response sender_did request_id response now c)
unfolding put_response evict_oldest
put-IsCacheOf sender_did request_id response now m c h =
    let k = cache_key sender_did request_id in
    let u = cached response now c.ttl_ms in
    let grown = JsMap.set k u c.store in
    let deadline : CacheEntry → ℕ = λ v. v.expires_at_ms in
    let keyed = IsKeyed-set k u c.store h.0 in
    (
      ground (arith, keyed, IsKeyed-evict deadline now c.max_entries grown keyed),
      ground (arith, size-evict deadline now c.max_entries grown),
      λ j e found. ground (
        arith,
        h.2 j e,
        get-set k j u c.store,
        get-set k j u m,
        eq_iff k j,
        get-evict deadline now c.max_entries j e grown keyed,
      ),
    )

ttl-apply :
    (op : CacheOp) (c : IdempotencyCache)
    → ((apply op c).ttl_ms ≡ c.ttl_ms) × ((apply op c).max_entries ≡ c.max_entries)
unfolding apply put_response evict_oldest
ttl-apply (op_get sender_did request_id now) c =
    unfold get_response in
    (
      ground (arith, Option-cases (JsMap.get (cache_key sender_did request_id) c.store)),
      ground (arith, Option-cases (JsMap.get (cache_key sender_did request_id) c.store)),
    )
ttl-apply (op_put sender_did request_id response now) c = (ground arith, ground arith)

apply_all-IsCacheOf :
    (ops : List CacheOp) (m : JsMap CacheEntry) (c : IdempotencyCache)
    → IsCacheOf m c
    → IsCacheOf (last_puts c.ttl_ms ops m) (apply_all ops c)
unfolding apply_all last_puts
apply_all-IsCacheOf [] m c h = h
apply_all-IsCacheOf (op_get sender_did request_id now ∷ ops) m c h =
    let op = op_get sender_did request_id now in
    subst (λ t. IsCacheOf (last_puts t ops m) (apply_all ops (apply op c))) (ttl-apply op c).0
      (apply_all-IsCacheOf ops m (apply op c)
        (unfold apply in get-IsCacheOf sender_did request_id now m c h))
apply_all-IsCacheOf (op_put sender_did request_id response now ∷ ops) m c h =
    let op = op_put sender_did request_id response now in
    let m' = JsMap.set (cache_key sender_did request_id) (cached response now c.ttl_ms) m in
    subst (λ t. IsCacheOf (last_puts t ops m') (apply_all ops (apply op c))) (ttl-apply op c).0
      (apply_all-IsCacheOf ops m' (apply op c)
        (unfold apply in put-IsCacheOf sender_did request_id response now m c h))

-- What the cache stands for: the last response that was put for the request of that sender.
unfoldable pub last_put : ℕ → String → String → List CacheOp → Option CacheEntry → Option CacheEntry
last_put ttl_ms sender_did request_id [] o = o
last_put ttl_ms sender_did request_id (op_get _ _ _ ∷ ops) o =
    last_put ttl_ms sender_did request_id ops o
last_put ttl_ms sender_did request_id (op_put s r response now ∷ ops) o =
    last_put ttl_ms sender_did request_id ops
      (if s == sender_did && r == request_id then some (cached response now ttl_ms) else o)

-- The senders of the calls have no NUL in their DIDs.
abbrev pub ArePlain : List CacheOp → Type 0
ArePlain [] = Unit
ArePlain (op_get _ _ _ ∷ ops) = ArePlain ops
ArePlain (op_put sender_did _ _ _ ∷ ops) = (has_no_nul sender_did ≡ true) × ArePlain ops

get-last_puts :
    (ttl_ms : ℕ) (sender_did request_id : String) (ops : List CacheOp) (m : JsMap CacheEntry)
    → has_no_nul sender_did ≡ true
    → ArePlain ops
    → JsMap.get (cache_key sender_did request_id) (last_puts ttl_ms ops m)
      ≡ last_put ttl_ms sender_did request_id ops (JsMap.get (cache_key sender_did request_id) m)
unfolding last_puts last_put
get-last_puts ttl_ms sender_did request_id [] m plain all = refl
get-last_puts ttl_ms sender_did request_id (op_get _ _ _ ∷ ops) m plain all =
    get-last_puts ttl_ms sender_did request_id ops m plain all
get-last_puts ttl_ms sender_did request_id (op_put s r response now ∷ ops) m plain all =
    let key = cache_key s r in
    let u = cached response now ttl_ms in
    get-last_puts ttl_ms sender_did request_id ops (JsMap.set key u m) plain all.1
    ∙ ap (last_put ttl_ms sender_did request_id ops) (
        ground (
          arith,
          get-set key (cache_key sender_did request_id) u m,
          cache_key-same s r sender_did request_id all.0 plain,
        ))

-- If a cache that has seen any calls since it was empty, of senders whose DIDs have no NUL, returns
-- a response to such a sender, then it holds no more than its limit, and the response is the last one
-- that was put for the same sender and the same request, before that one has expired.
pub replies_refine :
    (ops : List CacheOp) (c : IdempotencyCache) (sender_did request_id : String) (now : ℕ)
    (response : RpcInnerResponse)
    → c.store ≡ []
    → ArePlain ops
    → has_no_nul sender_did ≡ true
    → (get_response sender_did request_id now (apply_all ops c)).0 ≡ some response
    → (JsMap.size (apply_all ops c).store ≤ (apply_all ops c).max_entries)
      × (e : CacheEntry) × (last_put c.ttl_ms sender_did request_id ops none ≡ some e)
      × (e.response ≡ response)
      × (now < e.expires_at_ms)
unfolding get_response JsMap.get
replies_refine ops c sender_did request_id now response empty all plain answered =
    let k = cache_key sender_did request_id in
    let start : IsCacheOf [] c = rw empty (tt, omega arith, λ j e found. found) in
    let held = apply_all-IsCacheOf ops [] c start in
    elim (Option-cases (JsMap.get k (apply_all ops c).store)) [
      | inl gone ↦ absurd (ground arith)
      | inr (e, found) ↦ (
        held.1,
        e,
        sym (get-last_puts c.ttl_ms sender_did request_id ops [] plain all) ∙ held.2 k e found,
        ground arith,
        ground arith,
      )
    ]
