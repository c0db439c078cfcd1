-- ===== src/Brain/LoopBounds.antt =====
-- packages/brain/src/reasoning/agentic_loop.ts: how far a turn can go.
use dina_mobile.Prelude.{
  ℕ, zero, suc, ◌+◌, ◌≤◌, String, false, Option, none, some, List, [], ◌∷◌, ◌++◌, ◌≡◌, ◌⊎◌, inl,
  inr, refl, sym, ap, ◌∙◌, subst, arith, length, Bool-cases, Option-cases,
}
use mathlib.Core.List.{append-nil}
use dina_mobile.Brain.AgenticLoop.{
  ToolCall, ChatMessage, user, ChatResponse, FinishReason, cancelled, completed, provider_error,
  settled, never, Stop, ended, waits_provider, waits_tool, Turn, Outside, start_turn, polled, asked,
  add_usage, append_assistant, run_iteration, run_iterations, run_agentic_turn,
}
use dina_mobile.Brain.LoopSteps.{
  Awaited-cases, GoesOn, Fits, GoesOn-trans, Fits-after, polled-GoesOn, asked-GoesOn,
  run_calls-GoesOn,
}

module _ (outside : Outside) (limit : ℕ) where
  -- The answer of the provider, before its tool calls are run.
  answered-GoesOn :
      (resp : ChatResponse) (calls : List ToolCall) (t : Turn)
      → Fits limit t
      → GoesOn outside limit 1 t none
          (append_assistant resp.content calls (add_usage resp (asked (polled t))))
  unfolding append_assistant add_usage asked polled
  answered-GoesOn resp calls t f = record {
    within = f.within;
    logged = omega (arith, f.logged);
    chats = omega arith;
    added = _;
    grown = refl;
    waits = tt;
  }

  completed-GoesOn :
      (resp : ChatResponse) (t : Turn)
      → Fits limit t
      → GoesOn outside limit 1 t (some (ended completed)) (
          append_assistant resp.content []
            (record (add_usage resp (asked (polled t))) { answer = resp.content }))
  unfolding append_assistant add_usage asked polled
  completed-GoesOn resp t f = record {
    within = f.within;
    logged = omega (arith, f.logged);
    chats = omega arith;
    added = _;
    grown = refl;
    waits = tt;
  }

  -- A round that got an answer, by the tool calls in it.
  round-GoesOn :
      (resp : ChatResponse) (calls : List ToolCall) (t : Turn)
      → Fits limit t
      → outside.aborted t.polls ≡ false
      → outside.chat t.chats t.transcript ≡ settled (some resp)
      → resp.tool_calls ≡ calls
      → GoesOn outside limit 1 t (run_iteration outside limit t).0 (run_iteration outside limit t).1
  unfolding run_iteration
  round-GoesOn resp [] t f go found e =
      rw (go, run_iteration)
        (rw (found, run_iteration) (rw (e, run_iteration) (completed-GoesOn resp t f)))
  round-GoesOn resp (call ∷ calls) t f go found e =
      let t' = append_assistant resp.content (call ∷ calls) (add_usage resp (asked (polled t))) in
      let g = answered-GoesOn resp (call ∷ calls) t f in
      rw (go, run_iteration)
        (rw (found, run_iteration)
          (rw (e, run_iteration)
            (GoesOn-trans outside limit 1 0 t t' _ _ g (
              run_calls-GoesOn outside limit resp.content (call ∷ calls) t'
                (Fits-after outside limit 1 t t' g)))))

  run_iteration-GoesOn :
      (t : Turn)
      → Fits limit t
      → GoesOn outside limit 1 t (run_iteration outside limit t).0 (run_iteration outside limit t).1
  unfolding run_iteration
  run_iteration-GoesOn t f = elim (Bool-cases (outside.aborted t.polls)) [
    | inl stop ↦ rw (stop, run_iteration) (polled-GoesOn outside limit 1 cancelled t f)
    | inr go ↦ elim (Awaited-cases (outside.chat t.chats t.transcript)) [
      | inl e ↦
          rw (go, run_iteration)
            (rw (e, run_iteration)
              (asked-GoesOn outside limit (some waits_provider) t f refl
                (unfold asked polled in (t.chats, refl, e))))
      | inr (answer, e) ↦ elim (Option-cases answer) [
        | inl threw ↦
            let e' = e ∙ ap settled threw in
            rw (go, run_iteration)
              (rw (e', run_iteration)
                (asked-GoesOn outside limit (some (ended provider_error)) t f refl tt))
        | inr (resp, found) ↦ round-GoesOn resp resp.tool_calls t f go (e ∙ ap settled found) refl
      ]
    ]
  ]

  weaken :
      (left : ℕ) (t u : Turn) (stop : Option Stop)
      → GoesOn outside limit 1 t stop u
      → GoesOn outside limit (suc left) t stop u
  weaken left t u stop g = record {
    within = g.within;
    logged = g.logged;
    chats = omega (arith, g.chats);
    added = g.added;
    grown = g.grown;
    waits = g.waits;
  }

  run_iterations-GoesOn :
      (left : ℕ) (t : Turn)
      → Fits limit t
      → GoesOn outside limit left t
          (some (run_iterations outside limit left t).0)
          (run_iterations outside limit left t).1
  unfolding run_iterations
  run_iterations-GoesOn zero t f = record {
    within = f.within;
    logged = omega (arith, f.logged);
    chats = omega arith;
    added = [];
    grown = sym (append-nil t.transcript);
    waits = tt;
  }
  run_iterations-GoesOn (suc left) t f =
      let g = run_iteration-GoesOn t f in
      let t' = (run_iteration outside limit t).1 in
      elim (Option-cases (run_iteration outside limit t).0) [
        | inr (stop, stopped) ↦
            rw (stopped, run_iterations)
              (weaken left t t' (some stop) (subst (λ o. GoesOn outside limit 1 t o t') stopped g))
        | inl more ↦
            let g' = subst (λ o. GoesOn outside limit 1 t o t') more g in
            rw (more, run_iterations)
              (subst
                (λ n.
                  GoesOn outside limit n t (some (run_iterations outside limit left t').0)
                    (run_iterations outside limit left t').1)
                (omega arith)
                (GoesOn-trans outside limit 1 left t t' _ _ g'
                  (run_iterations-GoesOn left t' (Fits-after outside limit 1 t t' g'))))
      ]

-- How a turn stops: it ends for a reason, with all its tool calls logged; or the provider's answer to
-- the last call of it never comes; or the last tool call, the one that is not logged, never settles.
abbrev pub HasStopped : Outside → Stop → Turn → Type 0
HasStopped outside stop t =
    ((reason : FinishReason) × (stop ≡ ended reason) × (length t.tool_log ≡ t.tool_call_count))
    ⊎ ((stop ≡ waits_provider)
        × (length t.tool_log ≡ t.tool_call_count)
        × (n : ℕ) × (n + 1 ≡ t.chats)
        × (outside.chat n t.transcript ≡ never))
    ⊎ ((stop ≡ waits_tool)
        × (length t.tool_log + 1 ≡ t.tool_call_count)
        × (n : ℕ) × (n + 1 ≡ t.tool_call_count)
        × (call : ToolCall) × (outside.execute n call ≡ never))

stopped_lem :
    (outside : Outside) (limit n : ℕ) (t : Turn) (stop : Stop) (t' : Turn)
    → GoesOn outside limit n t (some stop) t'
    → HasStopped outside stop t'
stopped_lem outside limit n t (ended reason) t' g = inl (reason, refl, omega (arith, g.logged))
stopped_lem outside limit n t waits_provider t' g =
    let (n, last, e) = g.waits in inr (inl (refl, omega (arith, g.logged), n, last, e))
stopped_lem outside limit n t waits_tool t' g =
    let (n, last, call, e) = g.waits in inr (inr (refl, g.logged, n, last, call, e))

-- A turn stays within the given number of calls of the provider and within the limit of tool calls,
-- and its transcript starts with the history and the new user message, whatever the provider, the
-- tools and the abort signal do. It ends for a reason, with every tool call logged, unless its last
-- call of the provider never settles, or its last tool call does not, which alone is then not logged.
pub run_agentic_turn_bounds :
    (outside : Outside) (iterations limit : ℕ) (initial : List ChatMessage) (message : String)
    → let (stop, t) = run_agentic_turn outside iterations limit initial message in
      (t.chats ≤ iterations)
      × (t.tool_call_count ≤ limit)
      × ((added : List ChatMessage) × (t.transcript ≡ (initial ++ user message ∷ []) ++ added))
      × HasStopped outside stop t
unfolding run_agentic_turn
run_agentic_turn_bounds outside iterations limit initial message =
    let g =
      run_iterations-GoesOn outside limit iterations (start_turn initial message)
        (record { within = omega arith; logged = refl }) in
    (
      omega (arith, g.chats),
      g.within,
      (g.added, g.grown),
      stopped_lem outside limit iterations (start_turn initial message) _ _ g,
    )
