-- ===== src/Audit/Runs.antt =====
-- packages/core/src/audit/service.ts: runs of the calls that change the log.
use dina_mobile.Prelude.{
  ℕ, zero, suc, ◌+◌, ◌≤◌, String, List, [], ◌∷◌, refl, arith, ltb, Result, ok, err, Result-cases,
  Bool-cases, Option-cases, inl, inr,
}
use dina_mobile.Audit.HashChain.{AuditEntry, build_audit_entry}
use dina_mobile.Audit.Service.{
  AuditLog, AuditError, append_audit, next_entry, is_retained, find_index, drop, sweep_retention,
  set_retention_days, reset_audit_state,
}
use dina_mobile.Audit.Chain.{append_audit_inv, IsAscending, IsAscending-append}

-- The calls that change the log.
pub data AuditOp : Type 0 where
  op_append : String → String → String → String → ℕ → AuditOp
  op_sweep op_retention : ℕ → AuditOp

-- The log that a call leaves; one that throws leaves the log as it was.
abbrev log_after : AuditLog → Result AuditError (AuditEntry × AuditLog) → AuditLog
log_after s (ok (e, s')) = s'
log_after s (err e) = s

abbrev days_after : AuditLog → Result AuditError AuditLog → AuditLog
days_after s (ok s') = s'
days_after s (err e) = s

module _ (hash : String → String) where
  unfoldable pub audit_step : AuditOp → AuditLog → AuditLog
  unfolding append_audit set_retention_days
  audit_step (op_append actor action resource detail ts) s =
      log_after s (append_audit hash actor action resource detail ts s)
  audit_step (op_sweep now) s = (sweep_retention now s).1
  audit_step (op_retention days) s = days_after s (set_retention_days days s)

  unfoldable pub audit_run : List AuditOp → AuditLog → AuditLog
  unfolding audit_step
  audit_run [] s = s
  audit_run (op ∷ ops) s = audit_run ops (audit_step op s)

IsAscending-weaken :
    (lo lo' hi : ℕ) (es : List AuditEntry) → lo' ≤ lo → IsAscending lo hi es → IsAscending lo' hi es
IsAscending-weaken lo lo' hi [] le h = omega arith
IsAscending-weaken lo lo' hi (e ∷ es) le h = let lt : lo ≤ e.fields.seq = h.0 in (omega arith, h.1)

IsAscending-drop :
    (n lo hi : ℕ) (es : List AuditEntry) → IsAscending lo hi es → IsAscending lo hi (drop n es)
unfolding drop
IsAscending-drop zero lo hi es h = h
IsAscending-drop (suc n) lo hi [] h = h
IsAscending-drop (suc n) lo hi (e ∷ es) h =
    let le : lo ≤ e.fields.seq = h.0 in
    IsAscending-drop n lo hi es (IsAscending-weaken (e.fields.seq + 1) lo hi es (omega arith) h.1)

IsAscending-nil : (lo hi : ℕ) (es : List AuditEntry) → IsAscending lo hi es → lo ≤ hi
IsAscending-nil lo hi [] h = h
IsAscending-nil lo hi (e ∷ es) h =
    let le : lo ≤ e.fields.seq = h.0 in
    let r = IsAscending-nil (e.fields.seq + 1) hi es h.1 in omega arith

module _ (hash : String → String) where
  audit_step-IsAscending :
      (op : AuditOp) (s : AuditLog)
      → IsAscending 1 s.next_seq s.log
      → IsAscending 1 (audit_step hash op s).next_seq (audit_step hash op s).log
  unfolding audit_step append_audit sweep_retention set_retention_days next_entry build_audit_entry
  audit_step-IsAscending (op_append actor action resource detail ts) s h =
      elim (Result-cases (append_audit hash actor action resource detail ts s)) [
        | inr (e, bad) ↦ rw (bad, audit_step) h
        | inl ((entry, s'), good) ↦
            let (_, log, seq) =
              append_audit_inv hash actor action resource detail ts s s' entry good in
            rw (good, audit_step)
              (rw (log, seq)
                (IsAscending-append 1 s.next_seq s.log
                  (next_entry hash actor action resource detail ts s) h refl))
      ]
  audit_step-IsAscending (op_sweep now) s h =
      elim (Option-cases (find_index (is_retained now s.retention_days) s.log)) [
        | inl gone ↦ rw (gone, audit_step, sweep_retention) (IsAscending-nil 1 s.next_seq s.log h)
        | inr (i, found) ↦
            rw (found, audit_step, sweep_retention) (IsAscending-drop i 1 s.next_seq s.log h)
      ]
  audit_step-IsAscending (op_retention days) s h = elim (Bool-cases (ltb days 1)) [
    | inl t ↦ rw (t, audit_step, set_retention_days) h
    | inr f ↦ rw (f, audit_step, set_retention_days) h
  ]

  run_from :
      (ops : List AuditOp) (s : AuditLog)
      → IsAscending 1 s.next_seq s.log
      → IsAscending 1 (audit_run hash ops s).next_seq (audit_run hash ops s).log
  unfolding audit_run
  run_from [] s h = h
  run_from (op ∷ ops) s h = run_from ops (audit_step hash op s) (audit_step-IsAscending op s h)

  -- After any appends, sweeps and changes of the retention period the sequence numbers of the log
  -- go up strictly, and the next one is larger than all: none is used twice.
  pub audit_run-IsAscending :
      (ops : List AuditOp)
      → let s = audit_run hash ops reset_audit_state in IsAscending 1 s.next_seq s.log
  unfolding reset_audit_state
  audit_run-IsAscending ops = run_from ops reset_audit_state (omega arith)
