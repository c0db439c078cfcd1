-- ===== src/Service/Config.antt =====
-- packages/core/src/service/service_config.ts: the configuration of this node's public service. A
-- stored configuration has been validated; no repository is wired, and the listeners are a count of
-- the notifications they get.
use dina_mobile.Prelude.{
  ℕ, ◌+◌, String, Bool, true, false, not, ◌&&◌, Option, none, some, [], ◌∷◌, ◌==◌, nat_eq,
  if◌then◌else◌, Result, ok, err,
}
use dina_mobile.JsMap
use dina_mobile.JsMap.{JsMap}

pub data ServiceResponsePolicy : Type 0 where
  auto review other_policy : ServiceResponsePolicy

pub record ServiceCapabilityConfig : Type 0 where
  pub mcp_server : String
  pub mcp_tool : String
  pub response_policy : ServiceResponsePolicy
  pub schema_hash : Option String

-- `has_params` and `has_result` are whether the JSON Schemas are there.
pub record ServiceCapabilitySchemas : Type 0 where
  pub has_params : Bool
  pub has_result : Bool
  pub schema_hash : String

pub record ServiceConfig : Type 0 where
  pub is_public : Bool
  pub name : String
  pub capabilities : JsMap ServiceCapabilityConfig
  pub capability_schemas : JsMap ServiceCapabilitySchemas

pub data ConfigError : Type 0 where
  name_required public_without_capabilities capability_name_empty : ConfigError
  mcp_server_required mcp_tool_required bad_response_policy : ConfigError
  params_required result_required schema_hash_required : ConfigError

unfoldable pub is_policy : ServiceResponsePolicy → Bool
is_policy auto = true
is_policy review = true
is_policy other_policy = false

unfoldable pub validate_capabilities : JsMap ServiceCapabilityConfig → Option ConfigError
unfolding is_policy
validate_capabilities [] = none
validate_capabilities ((name, entry) ∷ rest) =
    let later = validate_capabilities rest in
    if name == ""
    then some capability_name_empty
    else if entry.mcp_server == ""
    then some mcp_server_required
    else if entry.mcp_tool == ""
    then some mcp_tool_required
    else if not (is_policy entry.response_policy)
    then some bad_response_policy
    else later

unfoldable pub validate_schemas : JsMap ServiceCapabilitySchemas → Option ConfigError
validate_schemas [] = none
validate_schemas ((name, s) ∷ rest) =
    let later = validate_schemas rest in
    if not s.has_params
    then some params_required
    else if not s.has_result
    then some result_required
    else if s.schema_hash == ""
    then some schema_hash_required
    else later

-- The first invariant that a configuration of the right types violates.
unfoldable pub validate_service_config : ServiceConfig → Option ConfigError
unfolding validate_capabilities validate_schemas
validate_service_config v =
    if v.name == ""
    then some name_required
    else if v.is_public && nat_eq (JsMap.size v.capabilities) 0
    then some public_without_capabilities
    else elim (validate_capabilities v.capabilities) [
      | some e ↦ some e
      | none ↦ validate_schemas v.capability_schemas
    ]

pub record ConfigState : Type 0 where
  pub current : Option ServiceConfig
  pub notified : ℕ

unfoldable pub set_service_config : ServiceConfig → ConfigState → Result ConfigError ConfigState
set_service_config config s = elim (validate_service_config config) [
  | some e ↦ err e
  | none ↦ ok (record { current = some config; notified = s.notified + 1 })
]

unfoldable pub clear_service_config : ConfigState → ConfigState
clear_service_config s = record { current = none; notified = s.notified + 1 }

unfoldable pub is_capability_configured : String → ConfigState → Bool
is_capability_configured capability s = elim s.current [
  | none ↦ false
  | some cfg ↦ if not cfg.is_public then false else JsMap.has capability cfg.capabilities
]
