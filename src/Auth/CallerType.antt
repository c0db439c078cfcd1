-- ===== src/Auth/CallerType.antt =====
-- packages/core/src/auth/caller_type.ts: what an authenticated DID is. An absent or empty agent DID is
-- none; the role resolver of the device registry is in the state where one is set.
use Prim.Native.String.{◌++◌ as ◌+++◌}
use dina_mobile.Prelude.{String, Bool, false, Option, none, some, [], ◌==◌, if◌then◌else◌}
use dina_mobile.JsMap
use dina_mobile.JsMap.{JsMap}

pub data CallerKind : Type 0 where
  service device agent unknown : CallerKind

pub record CallerIdentity : Type 0 where
  pub did : String
  pub caller_type : CallerKind
  pub name : Option String

pub record Callers : Type 0 where
  pub service_dids : JsMap String
  pub device_dids : JsMap String
  pub role_resolver : Option (String → Option String)

unfoldable pub reset_caller_type_state : Callers
reset_caller_type_state = record { service_dids = []; device_dids = []; role_resolver = none }

unfoldable pub set_device_role_resolver : Option (String → Option String) → Callers → Callers
set_device_role_resolver resolver s = record s { role_resolver = resolver }

unfoldable pub register_service : String → String → Callers → Callers
register_service did name s = record s { service_dids = JsMap.set did name s.service_dids }

unfoldable pub register_device : String → String → Callers → Callers
register_device did name s = record s { device_dids = JsMap.set did name s.device_dids }

unfoldable pub unregister_device : String → Callers → Callers
unregister_device did s = record s { device_dids = JsMap.delete did s.device_dids }

-- `deviceRoleResolver?.(did) ?? null`
unfoldable pub role_of : String → Callers → Option String
role_of did s = elim s.role_resolver [ none ↦ none | some resolver ↦ resolver did ]

abbrev pub is_agent_role : Option String → Bool
is_agent_role none = false
is_agent_role (some role) = role == "agent"

unfoldable pub resolve_service : String → String → Option String → CallerIdentity
resolve_service did name agent_did = elim agent_did [
  | none ↦ record { did = did; caller_type = service; name = some name }
  | some forwarded ↦
      if forwarded == ""
      then record { did = did; caller_type = service; name = some name }
      else record { did = forwarded; caller_type = agent; name = some ("agent via " +++ name) }
]

unfoldable pub resolve_caller_type : String → Option String → Callers → CallerIdentity
unfolding resolve_service role_of
resolve_caller_type did agent_did s = elim (JsMap.get did s.service_dids) [
  | some name ↦ resolve_service did name agent_did
  | none ↦ elim (JsMap.get did s.device_dids) [
    | some name ↦ record {
      did = did;
      caller_type = if is_agent_role (role_of did s) then agent else device;
      name = some name;
    }
    | none ↦ record { did = did; caller_type = unknown; name = none }
  ]
]

unfoldable pub is_service : String → Callers → Bool
is_service did s = JsMap.has did s.service_dids

unfoldable pub is_device : String → Callers → Bool
is_device did s = JsMap.has did s.device_dids
