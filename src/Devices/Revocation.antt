-- ===== src/Devices/Revocation.antt =====
-- packages/core/src/devices/registry.ts: what a revoked device may still do, with
-- packages/core/src/auth/caller_type.ts, which resolves the callers.
use dina_mobile.Prelude.{String, true, false, none, some, Option, ◌≡◌, arith, eq_iff, ok, err}
use dina_mobile.JsMap
use dina_mobile.JsMap.{get-set, get-delete}
use dina_mobile.Auth.CallerType.{Callers, unknown, resolve_caller_type, unregister_device}
use dina_mobile.Devices.Registry.{
  Registry, PairedDevice, already_revoked, revoke_device, unregister_key, is_device_active,
  get_device,
}

-- After the cascade the DID of a key is unknown, if it is no service.
unregister_key-gone :
    (did_of : String → Option String) (key did : String) (c : Callers)
    → did_of key ≡ some did
    → JsMap.get did c.service_dids ≡ none
    → (agent_did : Option String)
    → (resolve_caller_type did agent_did (unregister_key did_of key c)).caller_type ≡ unknown
unfolding unregister_key unregister_device resolve_caller_type
unregister_key-gone did_of key did c e v agent_did =
    ground (arith, e, v, get-delete did did c.device_dids, eq_iff did did)

-- If a device that is not revoked is found and its key has a DID that is no service, revoking it
-- succeeds: the device is inactive, its DID is resolved as unknown whatever agent it forwards for,
-- and it cannot be revoked again.
pub revoke_device-cuts_off :
    (did_of : String → Option String) (device_id did : String) (s : Registry) (c : Callers)
    (device : PairedDevice)
    → get_device device_id s ≡ some device
    → device.revoked ≡ false
    → did_of device.public_key_multibase ≡ some did
    → JsMap.get did c.service_dids ≡ none
    → (s' : Registry) × (c' : Callers) × (revoke_device did_of device_id s c ≡ ok (true, s', c'))
      × (is_device_active device_id s' ≡ false)
      × ((agent_did : Option String) → (resolve_caller_type did agent_did c').caller_type ≡ unknown)
      × (revoke_device did_of device_id s' c' ≡ err already_revoked)
unfolding revoke_device is_device_active get_device
revoke_device-cuts_off did_of device_id did s c device f a k v =
    let revoked = record device { revoked = true } in
    let kept = get-set device_id device_id revoked s.devices in
    (
      record s { devices = JsMap.set device_id revoked s.devices },
      unregister_key did_of device.public_key_multibase c,
      ground (arith, f, a),
      ground (arith, kept, eq_iff device_id device_id),
      unregister_key-gone did_of device.public_key_multibase did c k v,
      ground (arith, kept, eq_iff device_id device_id),
    )
