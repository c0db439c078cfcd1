-- ===== src/Brain/Tests.antt =====
-- Tests of packages/brain: a breaker that opens and recovers, and turns of the reasoning loop.
use dina_mobile.Brain.AgenticLoop.{run_calls}
use dina_mobile.Brain.AgenticLoop.{run_iteration}
use dina_mobile.Brain.AgenticLoop.{run_iterations}
use dina_mobile.Prelude.{◌≤◌, true, false, some, List, [], ◌∷◌, ◌++◌, ◌≡◌, refl, arith}
use dina_mobile.Brain.CircuitBreaker.{new_breaker, allow_request, opened, has_cooled}
use dina_mobile.Brain.Breaking.{op_failure, breaker_run, allow_request-one_probe}
use dina_mobile.Brain.AgenticLoop.{
  ToolCall, ChatMessage, user, Outside, success, run_agentic_turn, max_tool_calls, settled, never,
  ended, waits_tool,
}
use dina_mobile.Brain.LoopBounds.{HasStopped, run_agentic_turn_bounds}

tripped : (breaker_run (op_failure 10 ∷ op_failure 20 ∷ []) (new_breaker 2 30)).state ≡ opened
unfolding breaker_run new_breaker has_cooled
tripped = refl

cooled : has_cooled 60 (breaker_run (op_failure 10 ∷ op_failure 20 ∷ []) (new_breaker 2 30)) ≡ true
unfolding breaker_run new_breaker has_cooled
cooled = refl

allow_request-one_probe_example :
    ((allow_request 60 (breaker_run (op_failure 10 ∷ op_failure 20 ∷ []) (new_breaker 2 30))).0
      ≡ true)
    × ((allow_request 61
          (allow_request 60
            (breaker_run (op_failure 10 ∷ op_failure 20 ∷ []) (new_breaker 2 30))).1).0
        ≡ false)
allow_request-one_probe_example =
    allow_request-one_probe (op_failure 10 ∷ op_failure 20 ∷ []) 2 30 60 61 (omega arith) tripped
      cooled

-- A provider that asks for two tools each time.
abbrev call : ToolCall
call = record { id = "c"; name = "lookup"; arguments = "{}" }

abbrev eager : Outside
eager = record {
  chat = λ n transcript. settled (
      some (record {
        content = "";
        tool_calls = call ∷ call ∷ [];
        input_tokens = 5;
        output_tokens = 1;
      }));
  execute = λ n c. settled (success "ok");
  aborted = λ n. false;
}

eager_stops : (run_agentic_turn eager 8 3 [] "hi").0 ≡ ended max_tool_calls
unfolding run_agentic_turn run_iterations run_iteration run_calls
eager_stops = refl

-- Where the tool never settles, so does the turn.
abbrev hanging : Outside
hanging = record eager { execute = λ n c. never }

hangs : (run_agentic_turn hanging 8 3 [] "hi").0 ≡ waits_tool
unfolding run_agentic_turn run_iterations run_iteration run_calls
hangs = refl

run_agentic_turn_bounds_example :
    let (stop, t) = run_agentic_turn eager 8 3 [] "hi" in
    (t.chats ≤ 8)
    × (t.tool_call_count ≤ 3)
    × ((added : List ChatMessage) × (t.transcript ≡ ([] ++ user "hi" ∷ []) ++ added))
    × HasStopped eager stop t
run_agentic_turn_bounds_example = run_agentic_turn_bounds eager 8 3 [] "hi"
