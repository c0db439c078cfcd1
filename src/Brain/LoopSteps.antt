-- ===== src/Brain/LoopSteps.antt =====
-- packages/brain/src/reasoning/agentic_loop.ts: how a turn goes on, tool call by tool call.
use dina_mobile.Prelude.{
  ℕ, ◌+◌, ◌≤◌, String, false, Option, none, some, List, [], ◌∷◌, ◌++◌, ◌≡◌, ◌⊎◌, inl, inr, refl,
  sym, ap, ◌∙◌, arith, leb, length, length-append, Bool-cases,
}
use mathlib.Core.List.{append_assoc, append-nil}
use dina_mobile.Brain.AgenticLoop.{
  ToolCall, ChatMessage, FinishReason, cancelled, max_tool_calls, Awaited, settled, never, Stop,
  ended, waits_provider, waits_tool, Outcome, Turn, Outside, polled, counted, execute_call,
  budget_answer, run_calls, asked,
}

pub Awaited-cases : {A : Type 0} (x : Awaited A) → (x ≡ never) ⊎ ((a : A) × (x ≡ settled a))
Awaited-cases never = inl refl
Awaited-cases (settled a) = inr (a, refl)

-- The call for which a turn waits is its last one, and never settles.
abbrev pub IsWaiting : Outside → Option Stop → Turn → Type 0
IsWaiting outside none t = Unit
IsWaiting outside (some (ended reason)) t = Unit
IsWaiting outside (some waits_provider) t =
    (n : ℕ) × (n + 1 ≡ t.chats) × (outside.chat n t.transcript ≡ never)
IsWaiting outside (some waits_tool) t =
    (n : ℕ) × (n + 1 ≡ t.tool_call_count) × (call : ToolCall) × (outside.execute n call ≡ never)

-- The tool calls that are counted and not logged.
abbrev pub open_calls : Option Stop → ℕ
open_calls (some waits_tool) = 1
open_calls _ = 0

-- How a turn has gone on from `t` to `t'`: the tool calls stay within the limit and are all logged, but
-- for one that never settles; the provider was asked at most `n` times more, and the transcript has
-- only grown.
pub record GoesOn (outside : Outside) (limit n : ℕ) (t : Turn) (stop : Option Stop) (t' : Turn)
    : Type 0 where
  pub within : t'.tool_call_count ≤ limit
  pub logged : length t'.tool_log + open_calls stop ≡ t'.tool_call_count
  pub chats : t'.chats ≤ t.chats + n
  pub added : List ChatMessage
  pub grown : t'.transcript ≡ t.transcript ++ added
  pub waits : IsWaiting outside stop t'

pub record Fits (limit : ℕ) (t : Turn) : Type 0 where
  pub within : t.tool_call_count ≤ limit
  pub logged : length t.tool_log ≡ t.tool_call_count

module _ (outside : Outside) (limit : ℕ) where
  pub GoesOn-refl : (t : Turn) → Fits limit t → GoesOn outside limit 0 t none t
  GoesOn-refl t f = record {
    within = f.within;
    logged = omega (arith, f.logged);
    chats = omega arith;
    added = [];
    grown = sym (append-nil t.transcript);
    waits = tt;
  }

  pub GoesOn-trans :
      (m n : ℕ) (t u v : Turn) (stop : Option Stop)
      → GoesOn outside limit m t none u
      → GoesOn outside limit n u stop v
      → GoesOn outside limit (m + n) t stop v
  GoesOn-trans m n t u v stop g h = record {
    within = h.within;
    logged = h.logged;
    chats = omega (arith, g.chats, h.chats);
    added = g.added ++ h.added;
    grown = h.grown ∙ ap (λ x. x ++ h.added) g.grown ∙ append_assoc t.transcript g.added h.added;
    waits = h.waits;
  }

  pub Fits-after : (n : ℕ) (t u : Turn) → GoesOn outside limit n t none u → Fits limit u
  Fits-after n t u g = record { within = g.within; logged = omega (arith, g.logged) }

  -- A turn that ends with no further message, whether the provider was asked or not.
  pub polled-GoesOn :
      (n : ℕ) (reason : FinishReason) (t : Turn)
      → Fits limit t
      → GoesOn outside limit n t (some (ended reason)) (polled t)
  unfolding polled
  polled-GoesOn n reason t f = record {
    within = f.within;
    logged = omega (arith, f.logged);
    chats = omega arith;
    added = [];
    grown = sym (append-nil t.transcript);
    waits = tt;
  }

  pub asked-GoesOn :
      (stop : Option Stop) (t : Turn)
      → Fits limit t
      → open_calls stop ≡ 0
      → IsWaiting outside stop (asked (polled t))
      → GoesOn outside limit 1 t stop (asked (polled t))
  unfolding asked polled
  asked-GoesOn stop t f closed w = record {
    within = f.within;
    logged = omega (arith, f.logged, closed);
    chats = omega arith;
    added = [];
    grown = sym (append-nil t.transcript);
    waits = w;
  }

  pub budget-GoesOn :
      (content : String) (t : Turn)
      → Fits limit t
      → GoesOn outside limit 0 t (some (ended max_tool_calls)) (budget_answer content (polled t))
  unfolding polled
  budget-GoesOn content t f = record {
    within = f.within;
    logged = omega (arith, f.logged);
    chats = omega arith;
    added = [];
    grown = sym (append-nil t.transcript);
    waits = tt;
  }

  pub execute-GoesOn :
      (call : ToolCall) (outcome : Outcome) (t : Turn)
      → Fits limit t
      → leb limit t.tool_call_count ≡ false
      → GoesOn outside limit 0 t none (execute_call call outcome (polled t))
  unfolding execute_call counted polled
  execute-GoesOn call outcome t f room = record {
    within = ground arith;
    logged = ap (λ n. n + 0) (length-append t.tool_log _) ∙ omega (arith, f.logged);
    chats = omega arith;
    added = _;
    grown = refl;
    waits = tt;
  }

  pub stuck-GoesOn :
      (call : ToolCall) (t : Turn)
      → Fits limit t
      → leb limit t.tool_call_count ≡ false
      → outside.execute t.tool_call_count call ≡ never
      → GoesOn outside limit 0 t (some waits_tool) (counted (polled t))
  unfolding counted polled
  stuck-GoesOn call t f room e = record {
    within = ground arith;
    logged = omega (arith, f.logged);
    chats = omega arith;
    added = [];
    grown = sym (append-nil t.transcript);
    waits = (t.tool_call_count, refl, call, e);
  }

  pub run_calls-GoesOn :
      (content : String) (calls : List ToolCall) (t : Turn)
      → Fits limit t
      → GoesOn outside limit 0 t
          (run_calls outside limit content calls t).0
          (run_calls outside limit content calls t).1
  unfolding run_calls
  run_calls-GoesOn content [] t f = GoesOn-refl t f
  run_calls-GoesOn content (call ∷ calls) t f = elim (Bool-cases (outside.aborted t.polls)) [
    | inl stop ↦ rw (stop, run_calls) (polled-GoesOn 0 cancelled t f)
    | inr go ↦ elim (Bool-cases (leb limit t.tool_call_count)) [
      | inl full ↦ rw (go, run_calls) (rw (full, run_calls) (budget-GoesOn content t f))
      | inr room ↦ elim (Awaited-cases (outside.execute t.tool_call_count call)) [
        | inl e ↦
            rw (go, run_calls)
              (rw (room, run_calls) (rw (e, run_calls) (stuck-GoesOn call t f room e)))
        | inr (outcome, e) ↦
            let t' = execute_call call outcome (polled t) in
            let g = execute-GoesOn call outcome t f room in
            rw (go, run_calls)
              (rw (room, run_calls)
                (rw (e, run_calls)
                  (GoesOn-trans 0 0 t t' _ _ g
                    (run_calls-GoesOn content calls t' (Fits-after 0 t t' g)))))
      ]
    ]
  ]
