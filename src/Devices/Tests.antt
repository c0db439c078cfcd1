-- ===== src/Devices/Tests.antt =====
-- Tests of packages/core/src/devices/registry.ts, and its theorems at concrete inputs.
use dina_mobile.Prelude.{trim}
use dina_mobile.Prelude.{is_blank}
use dina_mobile.Prelude.{String, true, false, none, some, Option, [], ◌∷◌, ◌≡◌, refl, ok, err}
use dina_mobile.JsMap
use dina_mobile.Auth.CallerType.{Callers, unknown, resolve_caller_type}
use dina_mobile.Devices.Registry.{
  PairedDevice, Registry, already_revoked, key_already_registered, rich, ed25519, revoke_device,
  is_device_active, list_active_devices, reset_device_registry,
}
use dina_mobile.Devices.Registry as Registry
use dina_mobile.Devices.Revocation.{revoke_device-cuts_off}

-- A key has the DID of its text.
abbrev did_of : String → Option String
did_of key = some key

abbrev phone : PairedDevice
phone = record {
  device_id = "dev-1";
  did = "k1";
  public_key_multibase = "k1";
  device_name = "phone";
  role = rich;
  auth_type = ed25519;
  last_seen = 5;
  created_at = 5;
  revoked = false;
}

abbrev one_device : Registry
one_device = record {
  devices = ("dev-1", phone) ∷ [];
  key_index = ("k1", "dev-1") ∷ [];
  did_index = ("k1", "dev-1") ∷ [];
}

abbrev callers : Callers
callers = record { service_dids = []; device_dids = ("k1", "phone") ∷ []; role_resolver = none }

register_test :
    Registry.register_device did_of " phone" "k1" rich "dev-1" 5 reset_device_registry
    ≡ ok (phone, one_device)
unfolding Registry.register_device is_blank JsMap.get reset_device_registry Registry.new_device
    JsMap.set trim
register_test = refl

register_again :
    Registry.register_device did_of "other" "k1" rich "dev-2" 6 one_device
    ≡ err key_already_registered
unfolding Registry.register_device is_blank JsMap.get
register_again = refl

revoke_device-cuts_off_example :
    (s' : Registry) × (c' : Callers) × (revoke_device did_of "dev-1" one_device callers
      ≡ ok (true, s', c'))
    × (is_device_active "dev-1" s' ≡ false)
    × ((agent_did : Option String) → (resolve_caller_type "k1" agent_did c').caller_type ≡ unknown)
    × (revoke_device did_of "dev-1" s' c' ≡ err already_revoked)
unfolding Registry.get_device JsMap.get
revoke_device-cuts_off_example =
    revoke_device-cuts_off did_of "dev-1" "k1" one_device callers phone refl refl refl refl
