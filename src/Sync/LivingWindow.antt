-- ===== src/Sync/LivingWindow.antt =====
-- packages/core/src/sync/living_window.ts: the zones by age. Times are in milliseconds; an item may
-- be younger than `now`, which the source sees as a negative age.
use dina_mobile.Prelude.{
  ℕ, ◌+◌, ◌-◌, ◌*◌, ◌/◌, Bool, true, false, List, leb, keep, max, if◌then◌else◌,
}

abbrev pub ms_day : ℕ
ms_day = 24 * 60 * 60 * 1000

abbrev pub default_boundary_days : ℕ
default_boundary_days = 365

abbrev pub near_boundary_days : ℕ
near_boundary_days = 30

pub data Zone : Type 0 where
  active archive : Zone

pub data SearchMode : Type 0 where
  local pass_through : SearchMode

pub record ZoneClassification : Type 0 where
  pub zone : Zone
  pub age_days : ℕ
  pub near_boundary : Bool
  pub should_sync : Bool
  pub should_index : Bool
  pub search_mode : SearchMode

-- `ageMs <= boundaryMs`
unfoldable pub is_within : ℕ → ℕ → ℕ → Bool
is_within boundary_days timestamp now = leb now (timestamp + boundary_days * ms_day)

-- `ageMs >= (boundaryDays - 30) * MS_DAY`, where the difference may be negative.
unfoldable pub is_near : ℕ → ℕ → ℕ → Bool
is_near boundary_days timestamp now =
    leb (timestamp + boundary_days * ms_day) (now + near_boundary_days * ms_day)

unfoldable pub classify_zone : ℕ → ℕ → ℕ → ZoneClassification
classify_zone boundary_days timestamp now =
    if is_within boundary_days timestamp now
    then record {
      zone = active;
      age_days = (now - timestamp) / ms_day;
      near_boundary = is_near boundary_days timestamp now;
      should_sync = true;
      should_index = true;
      search_mode = local;
    }
    else record {
      zone = archive;
      age_days = (now - timestamp) / ms_day;
      near_boundary = false;
      should_sync = false;
      should_index = false;
      search_mode = pass_through;
    }

abbrev pub is_active : Zone → Bool
is_active active = true
is_active archive = false

unfoldable pub is_in_active_zone : ℕ → ℕ → ℕ → Bool
is_in_active_zone boundary_days timestamp now =
    is_active (classify_zone boundary_days timestamp now).zone

unfoldable pub is_near_boundary : ℕ → ℕ → ℕ → Bool
is_near_boundary boundary_days timestamp now =
    (classify_zone boundary_days timestamp now).near_boundary

unfoldable pub filter_active_zone {ℓ} : {A : Type ℓ} → ℕ → List A → (A → ℕ) → ℕ → List A
filter_active_zone boundary_days items get_timestamp now =
    keep (λ item. is_in_active_zone boundary_days (get_timestamp item) now) items

-- `Math.max(1, Math.floor(days))` for days that are not negative.
unfoldable pub set_boundary_days : ℕ → ℕ
set_boundary_days days = max 1 days
