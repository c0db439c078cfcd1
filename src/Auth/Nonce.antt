-- ===== src/Auth/Nonce.antt =====
-- packages/core/src/auth/nonce.ts: the two buffers of nonces. `now` is `Date.now()` in milliseconds.
use dina_mobile.Prelude.{
  ℕ, ◌+◌, String, Bool, true, false, List, [], ◌==◌, ◌||◌, leb, length, if◌then◌else◌,
}
use dina_mobile.JsSet

pub record NonceCache : Type 0 where
  pub current : List String
  pub previous : List String
  pub last_rotation : ℕ
  pub rotation_interval_ms : ℕ
  pub max_entries : ℕ

unfoldable pub rotate : ℕ → NonceCache → NonceCache
rotate now c = record c { previous = c.current; current = []; last_rotation = now }

-- `now - lastRotation >= rotationIntervalMs || current.size >= maxEntries`
unfoldable pub maybe_rotate : ℕ → NonceCache → NonceCache
unfolding rotate
maybe_rotate now c =
    if leb (c.last_rotation + c.rotation_interval_ms) now || leb c.max_entries (length c.current)
    then rotate now c
    else c

abbrev pub record_fresh : String → NonceCache → Bool × NonceCache
record_fresh nonce c =
    if JsSet.has nonce c.current || JsSet.has nonce c.previous
    then (false, c)
    else (true, record c { current = JsSet.add nonce c.current })

unfoldable pub check : String → ℕ → NonceCache → Bool × NonceCache
unfolding maybe_rotate
check nonce now c = if nonce == "" then (false, c) else record_fresh nonce (maybe_rotate now c)

unfoldable pub cache_size : NonceCache → ℕ
cache_size c = length c.current + length c.previous
