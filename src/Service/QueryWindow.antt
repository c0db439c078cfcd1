-- ===== src/Service/QueryWindow.antt =====
-- packages/core/src/service/query_window.ts: the class QueryWindow, and the wrappers of windows.ts
-- over its two instances. `now` is `nowFn()` in milliseconds. The timers that call `cleanup` are not
-- modelled: a cleanup at any time is a call like the others.
use Prim.Native.String.{◌++◌ as ◌+++◌}
use dina_mobile.Prelude.{
  ℕ, ◌+◌, ◌-◌, String, Bool, true, false, not, ◌&&◌, ◌||◌, none, some, [], ltb, ◌==◌, if◌then◌else◌,
}
use dina_mobile.JsMap
use dina_mobile.JsMap.{JsMap}

pub record WindowEntry : Type 0 where
  pub capability : String
  pub expires_at : ℕ
  pub reserved : Bool

abbrev pub QueryWindow : Type 0
QueryWindow = JsMap WindowEntry

unfoldable pub window_key : String → String → String → String
window_key peer_did query_id capability =
    peer_did +++ ("\0" +++ (query_id +++ ("\0" +++ capability)))

unfoldable pub is_expired : ℕ → WindowEntry → Bool
is_expired now entry = ltb entry.expires_at now

abbrev pub new_window : String → ℕ → WindowEntry
new_window capability expires_at = record {
  capability = capability;
  expires_at = expires_at;
  reserved = false;
}

unfoldable pub open_window : String → String → String → ℕ → ℕ → QueryWindow → QueryWindow
open_window peer_did query_id capability ttl_ms now w =
    JsMap.set (window_key peer_did query_id capability) (new_window capability (now + ttl_ms)) w

unfoldable pub can_reserve : String → ℕ → WindowEntry → Bool
unfolding is_expired
can_reserve capability now entry =
    not (entry.reserved || is_expired now entry || not (entry.capability == capability))

unfoldable pub reserve : String → String → String → ℕ → QueryWindow → Bool × QueryWindow
unfolding can_reserve
reserve peer_did query_id capability now w =
    let key = window_key peer_did query_id capability in
    elim (JsMap.get key w) [
      | none ↦ (false, w)
      | some entry ↦
          if can_reserve capability now entry
          then (true, JsMap.set key (record entry { reserved = true }) w)
          else (false, w)
    ]

unfoldable pub is_held : String → WindowEntry → Bool
is_held capability entry = entry.reserved && entry.capability == capability

unfoldable pub commit : String → String → String → QueryWindow → QueryWindow
unfolding is_held
commit peer_did query_id capability w =
    let key = window_key peer_did query_id capability in
    elim (JsMap.get key w) [
      | none ↦ w
      | some entry ↦ if is_held capability entry then JsMap.delete key w else w
    ]

unfoldable pub release : String → String → String → QueryWindow → QueryWindow
unfolding is_held
release peer_did query_id capability w =
    let key = window_key peer_did query_id capability in
    elim (JsMap.get key w) [
      | none ↦ w
      | some entry ↦
          if is_held capability entry
          then JsMap.set key (record entry { reserved = false }) w
          else w
    ]

unfoldable pub is_live : String → ℕ → WindowEntry → Bool
unfolding is_expired
is_live capability now entry = not (is_expired now entry || not (entry.capability == capability))

unfoldable pub check_and_consume : String → String → String → ℕ → QueryWindow → Bool × QueryWindow
unfolding is_live
check_and_consume peer_did query_id capability now w =
    let key = window_key peer_did query_id capability in
    elim (JsMap.get key w) [
      | none ↦ (false, w)
      | some entry ↦ if is_live capability now entry then (true, JsMap.delete key w) else (false, w)
    ]

unfoldable pub peek : String → String → String → ℕ → QueryWindow → Bool
unfolding is_live
peek peer_did query_id capability now w =
    elim (JsMap.get (window_key peer_did query_id capability) w) [
      | none ↦ false
      | some entry ↦ is_live capability now entry
    ]

unfoldable pub cleanup : ℕ → QueryWindow → ℕ × QueryWindow
unfolding is_expired
cleanup now w =
    let left = JsMap.retain (λ entry. not (is_expired now entry)) w in
    (JsMap.size w - JsMap.size left, left)

-- The two instances.
pub record Windows : Type 0 where
  pub provider : QueryWindow
  pub requester : QueryWindow

unfoldable pub reset_service_windows : Windows
reset_service_windows = record { provider = []; requester = [] }

-- `ttl_ms` is `ttlSeconds * 1000`.
unfoldable pub set_provider_window : String → String → String → ℕ → ℕ → Windows → Windows
set_provider_window peer_did query_id capability ttl_ms now ws = record ws {
  provider = open_window peer_did query_id capability ttl_ms now ws.provider;
}

unfoldable pub set_requester_window : String → String → String → ℕ → ℕ → Windows → Windows
set_requester_window peer_did query_id capability ttl_ms now ws = record ws {
  requester = open_window peer_did query_id capability ttl_ms now ws.requester;
}

unfoldable pub release_provider_window : String → String → String → Windows → Windows
release_provider_window peer_did query_id capability ws = record ws {
  provider = release peer_did query_id capability ws.provider;
}
