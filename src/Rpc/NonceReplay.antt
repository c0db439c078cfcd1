-- ===== src/Rpc/NonceReplay.antt =====
-- packages/core/src/rpc/nonce_replay_cache.ts: the nonces seen. `now` is `nowMsFn()`.
use Prim.Native.String.{◌++◌ as ◌+++◌}
use dina_mobile.Prelude.{ℕ, ◌+◌, String, Bool, true, false, none, some, ltb, if◌then◌else◌}
use dina_mobile.JsMap
use dina_mobile.JsMap.{JsMap}
use dina_mobile.Rpc.Evict.{evict}

-- The deadline of each nonce that was seen.
pub record NonceReplayCache : Type 0 where
  pub seen : JsMap ℕ
  pub ttl_ms : ℕ
  pub max_entries : ℕ

unfoldable pub nonce_key : String → String → String → String
nonce_key sender_did recipient_did nonce =
    sender_did +++ ("\0" +++ (recipient_did +++ ("\0" +++ nonce)))

unfoldable pub evict_oldest : ℕ → NonceReplayCache → NonceReplayCache
unfolding evict
evict_oldest now c = record c { seen = evict (λ v. v) now c.max_entries c.seen }

abbrev pub within_limit : ℕ → NonceReplayCache → NonceReplayCache
within_limit now c = if ltb c.max_entries (JsMap.size c.seen) then evict_oldest now c else c

unfoldable pub remember : String → ℕ → NonceReplayCache → NonceReplayCache
unfolding evict_oldest
remember key now c = within_limit now (record c { seen = JsMap.set key (now + c.ttl_ms) c.seen })

unfoldable pub accept : String → String → String → ℕ → NonceReplayCache → Bool × NonceReplayCache
unfolding remember nonce_key
accept sender_did recipient_did nonce now c =
    let key = nonce_key sender_did recipient_did nonce in
    elim (JsMap.get key c.seen) [
      | none ↦ (true, remember key now c)
      | some deadline ↦
          if ltb now deadline
          then (false, c)
          else (true, remember key now (record c { seen = JsMap.delete key c.seen }))
    ]
