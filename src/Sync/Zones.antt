-- ===== src/Sync/Zones.antt =====
-- packages/core/src/sync/living_window.ts: how an item moves through the zones as it ages.
use dina_mobile.Prelude.{ℕ, ◌+◌, ◌*◌, ◌≤◌, true, false, ◌≡◌, ◌⊎◌, inl, inr, arith, leb, Bool-cases}
use dina_mobile.Sync.LivingWindow.{
  classify_zone, is_within, is_near, is_in_active_zone, is_near_boundary, ms_day,
}

-- An item that is archived by now was, at any time of the thirty days before, archived already or
-- flagged as near the boundary: no item is archived that was not flagged.
pub classify_zone-flagged :
    (boundary_days timestamp earlier now : ℕ)
    → now ≤ earlier + 30 * ms_day
    → is_in_active_zone boundary_days timestamp now ≡ false
    → (is_in_active_zone boundary_days timestamp earlier ≡ false)
      ⊎ (is_near_boundary boundary_days timestamp earlier ≡ true)
unfolding is_in_active_zone is_near_boundary classify_zone is_within is_near
classify_zone-flagged boundary_days timestamp earlier now soon gone =
    elim (Bool-cases (leb earlier (timestamp + boundary_days * ms_day))) [
      | inl t ↦ inr (ground arith)
      | inr f ↦ inl (ground arith)
    ]
