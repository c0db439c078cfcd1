-- ===== src/Workflow/Domain.antt =====
-- packages/core/src/workflow/domain.ts: states, legal transitions, the task and event records.
-- Times and ids are natural numbers. A details field holds the JSON text that a caller gives, or
-- the object that the code hands to `JSON.stringify`.
use dina_mobile.Prelude.{
  ℕ, String, Bool, true, false, Option, some, List, [], ◌∷◌, ◌≡◌, refl, ◌⊎◌, inl, inr, ◌↔◌, arith,
  any, nat_eq, ◌==◌,
}
use dina_mobile.JsMap.{JsMap}

pub data State : Type 0 where
  created pending queued claimed running awaiting pending_approval scheduled : State
  completed failed cancelled recorded : State

pub State-discrete : Discrete State
State-discrete = hlevel

abbrev pub rank : State → ℕ
rank created = 0
rank pending = 1
rank queued = 2
rank claimed = 3
rank running = 4
rank awaiting = 5
rank pending_approval = 6
rank scheduled = 7
rank completed = 8
rank failed = 9
rank cancelled = 10
rank recorded = 11

pub record WorkflowTask : Type 0 where
  pub id : String
  pub kind : String
  pub status : State
  pub correlation_id : Option String
  pub parent_id : Option String
  pub proposal_id : Option String
  pub priority : String
  pub description : String
  pub payload : String
  pub result : Option String
  pub result_summary : String
  pub policy : String
  pub error : Option String
  pub requested_runner : Option String
  pub assigned_runner : Option String
  pub agent_did : Option String
  pub run_id : Option String
  pub progress_note : Option String
  pub lease_expires_at : Option ℕ
  pub origin : Option String
  pub session_name : Option String
  pub idempotency_key : Option String
  pub expires_at : Option ℕ
  pub next_run_at : Option ℕ
  pub recurrence : Option String
  pub internal_stash : Option String
  pub created_at : ℕ
  pub updated_at : ℕ

-- A field of an object that the code serialises.
pub data Field : Type 0 where
  text : String → String → Field
  num : String → ℕ → Field

pub data Details : Type 0 where
  raw : String → Details
  object : List Field → Details

pub record WorkflowEvent : Type 0 where
  pub event_id : ℕ
  pub task_id : String
  pub at : ℕ
  pub event_kind : String
  pub needs_delivery : Bool
  pub delivery_attempts : ℕ
  pub next_delivery_at : Option ℕ
  pub delivering_until : Option ℕ
  pub delivered_at : Option ℕ
  pub acknowledged_at : Option ℕ
  pub delivery_failed : Bool
  pub details : Details

unfoldable pub same_state : State → State → Bool
same_state a b = nat_eq (rank a) (rank b)

-- The table of legal transitions, a list for each state.
unfoldable pub valid_transitions : State → List State
valid_transitions created =
    pending ∷ queued ∷ pending_approval ∷ running ∷ completed ∷ failed ∷ cancelled ∷ []
valid_transitions pending = running ∷ queued ∷ cancelled ∷ []
valid_transitions queued = claimed ∷ running ∷ cancelled ∷ []
valid_transitions claimed = running ∷ failed ∷ cancelled ∷ []
valid_transitions running = awaiting ∷ completed ∷ failed ∷ cancelled ∷ queued ∷ []
valid_transitions awaiting = running ∷ completed ∷ failed ∷ cancelled ∷ []
valid_transitions pending_approval = pending ∷ queued ∷ failed ∷ cancelled ∷ []
valid_transitions scheduled = pending ∷ running ∷ cancelled ∷ []
valid_transitions completed = recorded ∷ []
valid_transitions failed = scheduled ∷ queued ∷ recorded ∷ cancelled ∷ []
valid_transitions cancelled = []
valid_transitions recorded = []

unfoldable pub is_valid_transition : State → State → Bool
unfolding same_state valid_transitions
is_valid_transition from to = any (same_state to) (valid_transitions from)

unfoldable pub is_terminal : State → Bool
is_terminal completed = true
is_terminal failed = true
is_terminal cancelled = true
is_terminal recorded = true
is_terminal _ = false

unfoldable pub is_allowed_origin : String → Bool
is_allowed_origin s =
    any (λ o. o == s) ("" ∷ "telegram" ∷ "api" ∷ "d2d" ∷ "admin" ∷ "system" ∷ "cli" ∷ [])

-- Two states are the same exactly if the test says so.
pub same_state_iff : (a b : State) → (same_state a b ≡ true) ↔ (a ≡ b)
unfolding same_state
same_state_iff a b = ground arith

-- What `JSON.parse` makes of a field of a payload: only texts and numbers are read.
pub data Json : Type 0 where
  str : String → Json
  number : ℕ → Json
  other : Json

-- What `JSON.parse` makes of a payload: it throws, or gives `null`, or a value whose fields can be
-- read (a value that is no object has none).
pub data Parsed : Type 0 where
  malformed null_value : Parsed
  fields : JsMap Json → Parsed

-- `typeof v === 'string' ? v : ''`
abbrev pub string_or_empty : Option Json → String
string_or_empty (some (str s)) = s
string_or_empty _ = ""

-- The text that stands for a state in the store and on the wire.
pub state_name : State → String
state_name created = "created"
state_name pending = "pending"
state_name queued = "queued"
state_name claimed = "claimed"
state_name running = "running"
state_name awaiting = "awaiting"
state_name pending_approval = "pending_approval"
state_name scheduled = "scheduled"
state_name completed = "completed"
state_name failed = "failed"
state_name cancelled = "cancelled"
state_name recorded = "recorded"

pub Parsed-cases :
    (p : Parsed) → ((m : JsMap Json) × (p ≡ fields m)) ⊎ ((p ≡ malformed) ⊎ (p ≡ null_value))
Parsed-cases malformed = inr (inl refl)
Parsed-cases null_value = inr (inr refl)
Parsed-cases (fields m) = inl (m, refl)
