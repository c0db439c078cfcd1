-- ===== src/Pairing/SingleUse.antt =====
-- packages/core/src/pairing/ceremony.ts: how often a code can be tried.
use dina_mobile.Prelude.{◌+◌, leb, if◌then◌else◌, String, true, some, ◌≡◌}
use dina_mobile.JsMap
use dina_mobile.Devices.Registry.{Registry}
use dina_mobile.Pairing.Ceremony.{Ceremony, PendingCode}

-- The code is pending and used.
record Burned (code : String) (s : Ceremony) : Type 0 where
  pending : PendingCode
  found : JsMap.get code s.pending_codes ≡ some pending
  burned : pending.used ≡ true

-- A pending code after an attempt that failed: one more failure, and used at the third.
abbrev pub after_failure : PendingCode → PendingCode
after_failure p =
    if p.used
    then p
    else record p { failed_attempts = p.failed_attempts + 1; used = leb 3 (p.failed_attempts + 1) }
