-- ===== src/Service/OneShot.antt =====
-- packages/core/src/service/query_window.ts: how often what one opening authorises can be spent.
use dina_mobile.Prelude.{
  ◌-◌, none, some, ℕ, ◌+◌, ◌≤◌, String, ◌&&◌, List, [], ◌∷◌, ◌==◌, if◌then◌else◌, is_some,
}
use dina_mobile.JsMap
use dina_mobile.JsMap.{JsMap}
use dina_mobile.Service.QueryWindow.{
  QueryWindow, window_key, open_window, reserve, commit, release, check_and_consume, cleanup,
}

-- The calls on a window store; the number at the end is the time.
pub data WindowOp : Type 0 where
  op_open : String → String → String → ℕ → ℕ → WindowOp
  op_reserve op_consume : String → String → String → ℕ → WindowOp
  op_commit op_release : String → String → String → WindowOp
  op_cleanup : ℕ → WindowOp

unfoldable pub window_step : WindowOp → QueryWindow → QueryWindow
unfolding open_window reserve check_and_consume commit release cleanup
window_step (op_open p q c ttl_ms now) w = open_window p q c ttl_ms now w
window_step (op_reserve p q c now) w = (reserve p q c now w).1
window_step (op_consume p q c now) w = (check_and_consume p q c now w).1
window_step (op_commit p q c) w = commit p q c w
window_step (op_release p q c) w = release p q c w
window_step (op_cleanup now) w = (cleanup now w).1

-- 1 if a window stands under the key, and 1 if one stands there that is not reserved.
unfoldable pub windows_at : String → QueryWindow → ℕ
windows_at key w = if is_some (JsMap.get key w) then 1 else 0

unfoldable pub free_at : String → QueryWindow → ℕ
free_at key w = elim (JsMap.get key w) [ none ↦ 0 | some e ↦ if e.reserved then 0 else 1 ]

-- What a call does under the key, 1 if it does so: it opens a window; its caller is told that the
-- window is consumed, or that it is reserved; it releases a window that is reserved.
unfoldable pub opens : String → WindowOp → QueryWindow → ℕ
opens key (op_open p q c ttl_ms now) w = if window_key p q c == key then 1 else 0
opens key op w = 0

unfoldable pub consumes : String → WindowOp → QueryWindow → ℕ
consumes key (op_consume p q c now) w =
    if window_key p q c == key && (check_and_consume p q c now w).0 then 1 else 0
consumes key op w = 0

unfoldable pub reserves : String → WindowOp → QueryWindow → ℕ
reserves key (op_reserve p q c now) w =
    if window_key p q c == key && (reserve p q c now w).0 then 1 else 0
reserves key op w = 0

unfoldable pub gives_back : String → WindowOp → QueryWindow → ℕ
unfolding windows_at free_at
gives_back key (op_release p q c) w =
    if window_key p q c == key then windows_at key w - free_at key w else 0
gives_back key op w = 0

-- How often the calls of a sequence do something.
unfoldable pub total : (WindowOp → QueryWindow → ℕ) → List WindowOp → QueryWindow → ℕ
total count [] w = 0
total count (op ∷ ops) w = count op w + total count ops (window_step op w)

-- What one call gives out was there before it, or it was opened or given back by the call.
abbrev StepIsPaid : String → WindowOp → QueryWindow → Type 0
StepIsPaid key op w =
    let w' = window_step op w in
    (consumes key op w + windows_at key w' ≤ opens key op w + windows_at key w)
    × (reserves key op w + free_at key w' ≤ opens key op w + gives_back key op w + free_at key w)
