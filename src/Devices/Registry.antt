-- ===== src/Devices/Registry.antt =====
-- packages/core/src/devices/registry.ts: the registry, with the callers of the auth layer that a
-- revocation reaches. `did_of` is the DID of a public key, with none where the key cannot be read;
-- ids come in as arguments, `now` is `Date.now()`. No repository is wired.
use Prim.Native.String.{◌++◌ as ◌+++◌}
use dina_mobile.Prelude.{
  ℕ, String, Bool, true, false, not, Option, none, some, List, [], ◌==◌, if◌then◌else◌, keep,
  Result, ok, err, is_blank, trim,
}
use dina_mobile.JsMap
use dina_mobile.JsMap.{JsMap}
use dina_mobile.Auth.CallerType.{Callers, unregister_device}

pub data DeviceRole : Type 0 where
  rich thin cli agent_role : DeviceRole

pub data AuthType : Type 0 where
  ed25519 token : AuthType

pub record PairedDevice : Type 0 where
  pub device_id : String
  pub did : String
  pub public_key_multibase : String
  pub device_name : String
  pub role : DeviceRole
  pub auth_type : AuthType
  pub last_seen : ℕ
  pub created_at : ℕ
  pub revoked : Bool

pub record Registry : Type 0 where
  pub devices : JsMap PairedDevice
  pub key_index : JsMap String
  pub did_index : JsMap String

unfoldable pub reset_device_registry : Registry
reset_device_registry = record { devices = []; key_index = []; did_index = [] }

pub data DeviceError : Type 0 where
  name_required key_required key_already_registered already_revoked : DeviceError

-- The key is that of a device that is not revoked.
unfoldable pub key_taken : String → Registry → Bool
key_taken key s = elim (JsMap.get key s.key_index) [
  | none ↦ false
  | some id ↦ elim (JsMap.get id s.devices) [ none ↦ false | some existing ↦ not existing.revoked ]
]

unfoldable pub list_devices : Registry → List PairedDevice
list_devices s = JsMap.values s.devices

unfoldable pub list_active_devices : Registry → List PairedDevice
list_active_devices s = keep (λ d. not d.revoked) (JsMap.values s.devices)

unfoldable pub get_device : String → Registry → Option PairedDevice
get_device device_id s = JsMap.get device_id s.devices

unfoldable pub get_by_public_key : String → Registry → Option PairedDevice
get_by_public_key key s = elim (JsMap.get key s.key_index) [
  | none ↦ none
  | some id ↦ if id == "" then none else JsMap.get id s.devices
]

unfoldable pub get_device_by_did : String → Registry → Option PairedDevice
get_device_by_did did s = elim (JsMap.get did s.did_index) [
  | none ↦ none
  | some id ↦ if id == "" then none else JsMap.get id s.devices
]

unfoldable pub is_device_active : String → Registry → Bool
is_device_active device_id s = elim (JsMap.get device_id s.devices) [
  | none ↦ false
  | some d ↦ not d.revoked
]

unfoldable pub touch_device : String → ℕ → Registry → Registry
touch_device device_id now s = elim (JsMap.get device_id s.devices) [
  | none ↦ s
  | some d ↦ record s { devices = JsMap.set device_id (record d { last_seen = now }) s.devices }
]

unfoldable pub device_count : Registry → ℕ
device_count s = JsMap.size s.devices

module _ (did_of : String → Option String) where
  -- The DID of a device: derived from its key, or made from the key's text.
  unfoldable pub derived_did : String → String
  derived_did key = elim (did_of key) [ none ↦ "did:key:" +++ key | some did ↦ did ]

  unfoldable pub new_device : String → String → DeviceRole → String → ℕ → PairedDevice
  unfolding derived_did
  new_device name key role device_id now = record {
    device_id = device_id;
    did = derived_did key;
    public_key_multibase = key;
    device_name = trim name;
    role = role;
    auth_type = ed25519;
    last_seen = now;
    created_at = now;
    revoked = false;
  }

  unfoldable pub register_device :
      String
      → String
      → DeviceRole
      → String
      → ℕ
      → Registry
      → Result DeviceError (PairedDevice × Registry)
  unfolding key_taken
  register_device name key role device_id now s =
      let device = new_device name key role device_id now in
      if is_blank name
      then err name_required
      else if key == ""
      then err key_required
      else if key_taken key s
      then err key_already_registered
      else ok (
        device,
        record {
          devices = JsMap.set device_id device s.devices;
          key_index = JsMap.set key device_id s.key_index;
          did_index = JsMap.set device.did device_id s.did_index;
        },
      )

  -- The cascade to the auth layer; a key that cannot be read is passed over.
  unfoldable pub unregister_key : String → Callers → Callers
  unregister_key key c = elim (did_of key) [ none ↦ c | some did ↦ unregister_device did c ]

  unfoldable pub revoke_device :
      String → Registry → Callers → Result DeviceError (Bool × Registry × Callers)
  unfolding unregister_key
  revoke_device device_id s c = elim (JsMap.get device_id s.devices) [
    | none ↦ ok (false, s, c)
    | some device ↦
        if device.revoked
        then err already_revoked
        else ok (
          true,
          record s { devices = JsMap.set device_id (record device { revoked = true }) s.devices },
          unregister_key device.public_key_multibase c,
        )
  ]
