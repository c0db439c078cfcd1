-- ===== src/Pairing/Ceremony.antt =====
-- packages/core/src/pairing/ceremony.ts: the pairing with a code of six digits. `now` is in
-- seconds, `now_ms` (the time of the registry) in milliseconds; the random numbers come in as a
-- list of what is drawn, `did_of` is the DID of a public key, with none where the key cannot be
-- read.
use dina_mobile.Prelude.{
  ℕ, zero, suc, ◌+◌, ◌%◌, ◌-◌, String, Bool, true, false, not, ◌&&◌, ◌||◌, Option, none, some, List,
  [], ◌∷◌, ◌==◌, leb, ltb, if◌then◌else◌, keep, length, Result, ok, err, decimal,
}
use dina_mobile.JsMap
use dina_mobile.JsMap.{JsMap}
use dina_mobile.Auth.CallerType as CallerType
use dina_mobile.Auth.CallerType.{Callers}
use dina_mobile.Devices.Registry.{Registry, DeviceRole, register_device}

pub record PendingCode : Type 0 where
  pub code : String
  pub expires_at : ℕ
  pub used : Bool
  pub failed_attempts : ℕ

abbrev pub code_ttl_seconds : ℕ
code_ttl_seconds = 300

abbrev pub max_pending_codes : ℕ
max_pending_codes = 100

abbrev pub pairing_code_min : ℕ
pairing_code_min = 100000

abbrev pub pairing_code_range : ℕ
pairing_code_range = 900000

abbrev pub max_failed_attempts : ℕ
max_failed_attempts = 3

-- The ceremony with the registry and the callers that it writes to.
pub record Ceremony : Type 0 where
  pub pending_codes : JsMap PendingCode
  pub node_did : Option String
  pub registry : Registry
  pub callers : Callers

pub data PairingError : Type 0 where
  node_did_not_set max_pending_exceeded collision invalid_code bad_key device_refused : PairingError

-- Unused, not burned and not expired.
unfoldable pub is_active_code : ℕ → PendingCode → Bool
is_active_code now p =
    not p.used && ltb p.failed_attempts max_failed_attempts && leb now p.expires_at

unfoldable pub active_pairing_count : ℕ → Ceremony → ℕ
active_pairing_count now s = length (keep (is_active_code now) (JsMap.values s.pending_codes))

unfoldable pub purge_expired_codes : ℕ → Ceremony → ℕ × Ceremony
purge_expired_codes now s =
    let left = JsMap.retain (λ p. not (ltb p.expires_at now || p.used)) s.pending_codes in
    (JsMap.size s.pending_codes - JsMap.size left, record s { pending_codes = left })

abbrev pub code_text : ℕ → String
code_text random = decimal (random % pairing_code_range + pairing_code_min)

-- The codes that are drawn until one is not pending, six at most; none where all are pending.
unfoldable pub draw_code : ℕ → List ℕ → JsMap PendingCode → Option String
draw_code zero draws pending = none
draw_code (suc tries) [] pending = none
draw_code (suc tries) (random ∷ draws) pending =
    let again = draw_code tries draws pending in
    if JsMap.has (code_text random) pending then again else some (code_text random)

unfoldable pub new_code : String → ℕ → PendingCode
new_code code now = record {
  code = code;
  expires_at = now + code_ttl_seconds;
  used = false;
  failed_attempts = 0;
}

unfoldable pub generate_code : List ℕ → ℕ → Ceremony → Result PairingError String × Ceremony
unfolding purge_expired_codes active_pairing_count draw_code new_code
generate_code draws now s = elim s.node_did [
  | none ↦ (err node_did_not_set, s)
  | some did ↦
      let s' = (purge_expired_codes now s).1 in
      if leb max_pending_codes (active_pairing_count now s')
      then (err max_pending_exceeded, s')
      else (elim (draw_code 6 draws s'.pending_codes) [
        | none ↦ (err collision, s')
        | some code ↦ (
          ok code,
          record s' { pending_codes = JsMap.set code (new_code code now) s'.pending_codes },
        )
      ])
]

unfoldable pub is_code_valid : String → ℕ → Ceremony → Bool
unfolding is_active_code
is_code_valid code now s = elim (JsMap.get code s.pending_codes) [
  | none ↦ false
  | some p ↦ is_active_code now p
]

-- One more failure, which burns the code at the third.
unfoldable pub failed_once : PendingCode → PendingCode
failed_once p = record p {
  failed_attempts = p.failed_attempts + 1;
  used = leb max_failed_attempts (p.failed_attempts + 1) || p.used;
}

unfoldable pub record_failed_attempt : String → Ceremony → Ceremony
unfolding failed_once
record_failed_attempt code s = elim (JsMap.get code s.pending_codes) [
  | none ↦ s
  | some p ↦
      if p.used
      then s
      else record s { pending_codes = JsMap.set code (failed_once p) s.pending_codes }
]

unfoldable pub mark_used : String → Ceremony → Ceremony
mark_used code s = elim (JsMap.get code s.pending_codes) [
  | none ↦ s
  | some p ↦ record s { pending_codes = JsMap.set code (record p { used = true }) s.pending_codes }
]

module _ (did_of : String → Option String) where
  -- What follows the marking of the code: the key is read, the device is stored and its DID is
  -- registered. The code stays used where one of these throws.
  unfoldable pub register_paired :
      String → String → DeviceRole → String → ℕ → Ceremony → Result PairingError String × Ceremony
  register_paired device_name key role device_id now_ms s = elim (did_of key) [
    | none ↦ (err bad_key, s)
    | some device_did ↦
        elim (register_device did_of device_name key role device_id now_ms s.registry) [
          | err e ↦ (err device_refused, s)
          | ok (device, registry) ↦ (
            ok device.device_id,
            record s {
              registry = registry;
              callers = CallerType.register_device device_did device_name s.callers;
            },
          )
        ]
  ]

  unfoldable pub complete_pairing :
      String
      → String
      → String
      → DeviceRole
      → String
      → ℕ
      → ℕ
      → Ceremony
      → Result PairingError String × Ceremony
  unfolding is_code_valid record_failed_attempt mark_used register_paired
  complete_pairing code device_name key role device_id now now_ms s = elim s.node_did [
    | none ↦ (err node_did_not_set, s)
    | some did ↦
        if not (is_code_valid code now s)
        then (err invalid_code, record_failed_attempt code s)
        else register_paired device_name key role device_id now_ms (mark_used code s)
  ]

  unfoldable pub verify_pairing_identity_binding : String → String → Bool
  verify_pairing_identity_binding key claimed_did = elim (did_of key) [
    | none ↦ false
    | some derived ↦ derived == claimed_did
  ]
