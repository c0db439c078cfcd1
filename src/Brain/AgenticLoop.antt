-- ===== src/Brain/AgenticLoop.antt =====
-- packages/brain/src/reasoning/agentic_loop.ts: `runAgenticTurn`. The provider, the tools and the
-- abort signal are arguments, which see how much has happened before. The provider and the tools are
-- awaited without a timeout: a call may never settle, and then the turn never returns. Arguments and
-- results of tools are texts, and the answer to a tool call is what the `tool` message carries.
use dina_mobile.Prelude.{
  ℕ, zero, suc, ◌+◌, String, Bool, Option, none, some, List, [], ◌∷◌, ◌++◌, ◌==◌, leb,
  if◌then◌else◌,
}

pub record ToolCall : Type 0 where
  pub id : String
  pub name : String
  pub arguments : String

pub data Outcome : Type 0 where
  success failure : String → Outcome

pub data ChatMessage : Type 0 where
  user : String → ChatMessage
  assistant : String → List ToolCall → ChatMessage
  tool : Outcome → String → String → ChatMessage

pub record ChatResponse : Type 0 where
  pub content : String
  pub tool_calls : List ToolCall
  pub input_tokens : ℕ
  pub output_tokens : ℕ

pub data FinishReason : Type 0 where
  completed max_iterations max_tool_calls cancelled provider_error : FinishReason

-- What an awaited call comes to: it settles, or it never does.
pub data Awaited (A : Type 0) : Type 0 where
  settled : A → Awaited A
  never : Awaited A

-- How a turn stops: it returns, or it waits for ever, for the provider or for a tool.
pub data Stop : Type 0 where
  ended : FinishReason → Stop
  waits_provider waits_tool : Stop

pub record ToolLogEntry : Type 0 where
  pub call : ToolCall
  pub outcome : Outcome

-- The variables of the loop, and how often the provider and the signal were asked.
pub record Turn : Type 0 where
  pub transcript : List ChatMessage
  pub tool_log : List ToolLogEntry
  pub input_tokens : ℕ
  pub output_tokens : ℕ
  pub tool_call_count : ℕ
  pub answer : String
  pub chats : ℕ
  pub polls : ℕ

abbrev pub budget_message : String
budget_message =
    "I've hit the tool-call budget for this request. Try again with a simpler question."

abbrev pub start_turn : List ChatMessage → String → Turn
start_turn initial_messages user_message = record {
  transcript = initial_messages ++ user user_message ∷ [];
  tool_log = [];
  input_tokens = 0;
  output_tokens = 0;
  tool_call_count = 0;
  answer = "";
  chats = 0;
  polls = 0;
}

-- `chat` is the provider's answer to a transcript at its n-th call, with none where it throws;
-- `execute` the outcome of the n-th tool call; `aborted` whether the signal is aborted at the n-th look.
pub record Outside : Type 0 where
  pub chat : ℕ → List ChatMessage → Awaited (Option ChatResponse)
  pub execute : ℕ → ToolCall → Awaited Outcome
  pub aborted : ℕ → Bool

unfoldable pub polled : Turn → Turn
polled t = record t { polls = t.polls + 1 }

-- A tool call is counted before it is run.
unfoldable pub counted : Turn → Turn
counted t = record t { tool_call_count = t.tool_call_count + 1 }

-- One tool call that has settled, with its message and its line in the log.
unfoldable pub execute_call : ToolCall → Outcome → Turn → Turn
unfolding counted
execute_call call outcome t = record (counted t) {
  tool_log = t.tool_log ++ record { call = call; outcome = outcome } ∷ [];
  transcript = t.transcript ++ tool outcome call.id call.name ∷ [];
}

abbrev pub budget_answer : String → Turn → Turn
budget_answer content t = record t { answer = if content == "" then budget_message else content }

-- The loop over the tool calls of one answer, and how it stops the turn where it does.
unfoldable pub run_calls : Outside → ℕ → String → List ToolCall → Turn → Option Stop × Turn
unfolding execute_call counted polled
run_calls outside limit content [] t = (none, t)
run_calls outside limit content (call ∷ calls) t =
    if outside.aborted t.polls
    then (some (ended cancelled), polled t)
    else if leb limit t.tool_call_count
    then (some (ended max_tool_calls), budget_answer content (polled t))
    else (elim (outside.execute t.tool_call_count call) [
      | never ↦ (some waits_tool, counted (polled t))
      | settled outcome ↦
          run_calls outside limit content calls (execute_call call outcome (polled t))
    ])

unfoldable pub asked : Turn → Turn
asked t = record t { chats = t.chats + 1 }

unfoldable pub add_usage : ChatResponse → Turn → Turn
add_usage resp t = record t {
  input_tokens = t.input_tokens + resp.input_tokens;
  output_tokens = t.output_tokens + resp.output_tokens;
}

unfoldable pub append_assistant : String → List ToolCall → Turn → Turn
append_assistant content calls t = record t {
  transcript = t.transcript ++ assistant content calls ∷ [];
}

-- One round of the loop, and how it stops the turn where it does.
unfoldable pub run_iteration : Outside → ℕ → Turn → Option Stop × Turn
unfolding polled asked add_usage append_assistant
run_iteration outside limit t =
    if outside.aborted t.polls
    then (some (ended cancelled), polled t)
    else (elim (outside.chat t.chats t.transcript) [
      | never ↦ (some waits_provider, asked (polled t))
      | settled none ↦ (some (ended provider_error), asked (polled t))
      | settled (some resp) ↦
          let t' = add_usage resp (asked (polled t)) in
          elim resp.tool_calls [
            | [] ↦ (
              some (ended completed),
              append_assistant resp.content [] (record t' { answer = resp.content }),
            )
            | call ∷ calls ↦
                run_calls outside limit resp.content (call ∷ calls)
                  (append_assistant resp.content (call ∷ calls) t')
          ]
    ])

-- The rounds that are left.
unfoldable pub run_iterations : Outside → ℕ → ℕ → Turn → Stop × Turn
run_iterations outside limit zero t = (ended max_iterations, t)
run_iterations outside limit (suc left) t =
    let (stopped, t') = run_iteration outside limit t in
    elim stopped [ some stop ↦ (stop, t') | none ↦ run_iterations outside limit left t' ]

unfoldable pub run_agentic_turn : Outside → ℕ → ℕ → List ChatMessage → String → Stop × Turn
run_agentic_turn outside iterations limit initial_messages user_message =
    run_iterations outside limit iterations (start_turn initial_messages user_message)
