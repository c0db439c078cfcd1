-- ===== src/Service/Reserve.antt =====
-- packages/core/src/service/query_window.ts: a reservation, and its two ends.
use dina_mobile.Prelude.{
  ◌≤◌, ℕ, String, true, false, none, some, ◌≡◌, arith, ◌==◌, eq_iff, if◌then◌else◌, Option-cases,
  inl, inr,
}
use dina_mobile.JsMap
use dina_mobile.JsMap.{JsMap, get-set, get-set_self, get-delete}
use dina_mobile.Service.QueryWindow.{
  is_expired, QueryWindow, WindowEntry, window_key, is_held, can_reserve, reserve, commit, release,
}

-- The entry that a reservation that succeeds has found, and what it has stored.
pub record IsReserved (p q c : String) (now : ℕ) (w : QueryWindow) : Type 0 where
  pub entry : WindowEntry
  pub found : JsMap.get (window_key p q c) w ≡ some entry
  pub free : can_reserve c now entry ≡ true
  pub stored :
      (reserve p q c now w).1 ≡ JsMap.set (window_key p q c) (record entry { reserved = true }) w

pub reserve_inv :
    (p q c : String) (now : ℕ) (w : QueryWindow)
    → (reserve p q c now w).0 ≡ true
    → IsReserved p q c now w
unfolding reserve
reserve_inv p q c now w h = elim (Option-cases (JsMap.get (window_key p q c) w)) [
  | inl gone ↦ absurd (ground arith)
  | inr (entry, found) ↦ record {
    entry = entry;
    found = found;
    free = ground arith;
    stored = ground arith;
  }
]

module _ (p q c : String) (entry : WindowEntry) (w : QueryWindow) where
  abbrev held : QueryWindow
  held = JsMap.set (window_key p q c) (record entry { reserved = true }) w

  reserve-held : (now : ℕ) → (reserve p q c now held).0 ≡ false
  unfolding reserve can_reserve
  reserve-held now =
      ground (arith, get-set_self (window_key p q c) (record entry { reserved = true }) w)

  release-held :
      (j : String)
      → entry.capability ≡ c
      → entry.reserved ≡ false
      → JsMap.get (window_key p q c) w ≡ some entry
      → JsMap.get j (release p q c held) ≡ JsMap.get j w
  unfolding release is_held
  release-held j same free found = ground (
    arith,
    eq_iff entry.capability c,
    eq_iff (window_key p q c) j,
    get-set_self (window_key p q c) (record entry { reserved = true }) w,
    get-set (window_key p q c) j (record entry { reserved = false }) held,
    get-set (window_key p q c) j (record entry { reserved = true }) w,
  )

  commit-held :
      (j : String)
      → entry.capability ≡ c
      → JsMap.get j (commit p q c held) ≡ (if window_key p q c == j then none else JsMap.get j w)
  unfolding commit is_held
  commit-held j same = ground (
    arith,
    eq_iff entry.capability c,
    eq_iff (window_key p q c) j,
    get-set_self (window_key p q c) (record entry { reserved = true }) w,
    get-delete (window_key p q c) j held,
    get-set (window_key p q c) j (record entry { reserved = true }) w,
  )

can_reserve_inv :
    (c : String) (now : ℕ) (entry : WindowEntry)
    → can_reserve c now entry ≡ true
    → (entry.capability ≡ c) × (entry.reserved ≡ false)
unfolding can_reserve
can_reserve_inv c now entry h = ground (arith, eq_iff entry.capability c)

-- When a window has been reserved, no second reservation of it succeeds at any time; a release
-- restores every window as it was before, and a commit removes exactly the window that was reserved.
pub reserve_lem :
    (p q c : String) (now : ℕ) (w : QueryWindow)
    → (reserve p q c now w).0 ≡ true
    → let w' = (reserve p q c now w).1 in
      ((later : ℕ) → (reserve p q c later w').0 ≡ false)
      × ((j : String) → JsMap.get j (release p q c w') ≡ JsMap.get j w)
      × ((j : String)
          → JsMap.get j (commit p q c w') ≡ (if window_key p q c == j then none else JsMap.get j w))
reserve_lem p q c now w h =
    let r = reserve_inv p q c now w h in
    let (same, free) = can_reserve_inv c now r.entry r.free in
    rw r.stored (
      reserve-held p q c r.entry w,
      (λ j. release-held p q c r.entry w j same free r.found),
      (λ j. commit-held p q c r.entry w j same),
    )

-- A reservation succeeds or not by the window that stands under its key.
pub reserve-lookup :
    (p q c : String) (now : ℕ) (w w' : QueryWindow)
    → JsMap.get (window_key p q c) w ≡ JsMap.get (window_key p q c) w'
    → (reserve p q c now w).0 ≡ (reserve p q c now w').0
unfolding reserve
reserve-lookup p q c now w w' e = elim (Option-cases (JsMap.get (window_key p q c) w')) [
  | inl gone ↦ ground arith
  | inr (entry, found) ↦ ground arith
]

pub reserve-missing :
    (p q c : String) (now : ℕ) (w : QueryWindow)
    → JsMap.get (window_key p q c) w ≡ none
    → (reserve p q c now w).0 ≡ false
unfolding reserve
reserve-missing p q c now w e = ground arith

-- A reservation that succeeds has found a window that is not reserved and not expired.
pub reserve-live :
    (p q c : String) (now : ℕ) (w : QueryWindow)
    → (reserve p q c now w).0 ≡ true
    → (entry : WindowEntry) × (JsMap.get (window_key p q c) w ≡ some entry)
      × (entry.reserved ≡ false)
      × (now ≤ entry.expires_at)
unfolding can_reserve is_expired
reserve-live p q c now w h =
    let r = reserve_inv p q c now w h in
    (r.entry, r.found, ground (arith, r.free), ground (arith, r.free))
