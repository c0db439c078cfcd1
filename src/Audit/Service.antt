-- ===== src/Audit/Service.antt =====
-- packages/core/src/audit/service.ts: the log in memory. `ts` is the time of the entry in seconds,
-- `now` a time in milliseconds. No repository is wired; the write to one is ignored by the code.
use dina_mobile.Prelude.{
  ℕ, zero, suc, ◌+◌, ◌*◌, String, Bool, ◌&&◌, ◌||◌, Option, none, some, List, [], ◌∷◌, ◌++◌, ◌==◌,
  nat_eq, leb, ltb, if◌then◌else◌, keep, take, length, Result, ok, err, min, ◌/◌, is_blank,
}
use mathlib.Core.List.{reverse}
use dina_mobile.Audit.HashChain.{AuditEntry, build_audit_entry, verify_chain}

pub record AuditLog : Type 0 where
  pub log : List AuditEntry
  pub next_seq : ℕ
  pub retention_days : ℕ

unfoldable pub reset_audit_state : AuditLog
reset_audit_state = record { log = []; next_seq = 1; retention_days = 90 }

pub data AuditError : Type 0 where
  retention_too_short actor_required action_required : AuditError

unfoldable pub set_retention_days : ℕ → AuditLog → Result AuditError AuditLog
set_retention_days days s =
    if ltb days 1 then err retention_too_short else ok (record s { retention_days = days })

-- `log.length > 0 ? log[log.length - 1].entry_hash : ''`, with `before` for the empty log.
unfoldable pub last_hash : String → List AuditEntry → String
last_hash before [] = before
last_hash before (e ∷ es) = last_hash e.entry_hash es

module _ (hash : String → String) where
  unfoldable pub next_entry : String → String → String → String → ℕ → AuditLog → AuditEntry
  next_entry actor action resource detail ts s =
      build_audit_entry hash s.next_seq ts actor action resource detail (last_hash "" s.log)

  unfoldable pub append_audit :
      String → String → String → String → ℕ → AuditLog → Result AuditError (AuditEntry × AuditLog)
  append_audit actor action resource detail ts s =
      let entry = next_entry actor action resource detail ts s in
      if is_blank actor
      then err actor_required
      else if is_blank action
      then err action_required
      else ok (entry, record s { log = s.log ++ entry ∷ []; next_seq = s.next_seq + 1 })

  unfoldable pub verify_audit_chain : AuditLog → Option ℕ
  verify_audit_chain s = verify_chain hash s.log

-- `filters`; an absent filter and an empty text (or 0) are both passed over.
pub record AuditFilters : Type 0 where
  pub actor : String
  pub action : String
  pub resource : String
  pub since : ℕ
  pub until : ℕ
  pub limit : ℕ

abbrev pub max_query_limit : ℕ
max_query_limit = 200

unfoldable pub matches_text : String → String → Bool
matches_text filter value = filter == "" || value == filter

unfoldable pub in_range : AuditFilters → AuditEntry → Bool
in_range f e =
    (nat_eq f.since 0 || leb (f.since / 1000) e.fields.ts)
    && (nat_eq f.until 0 || leb e.fields.ts (f.until / 1000))

unfoldable pub effective_limit : ℕ → ℕ
effective_limit limit = if nat_eq limit 0 then max_query_limit else min limit max_query_limit

unfoldable pub query_audit : AuditFilters → AuditLog → List AuditEntry
query_audit f s =
    let by_actor = keep (λ e. matches_text f.actor e.fields.actor) s.log in
    let by_action = keep (λ e. matches_text f.action e.fields.action) by_actor in
    let by_resource = keep (λ e. matches_text f.resource e.fields.resource) by_action in
    let in_time = keep (in_range f) by_resource in take (effective_limit f.limit) (reverse in_time)

-- `e.ts >= cutoff` for `cutoff = (now - retentionMs) / 1000`
unfoldable pub is_retained : ℕ → ℕ → AuditEntry → Bool
is_retained now days e = leb now (e.fields.ts * 1000 + days * (24 * 60 * 60 * 1000))

-- `findIndex(e => e.ts >= cutoff)`
unfoldable pub find_index : (AuditEntry → Bool) → List AuditEntry → Option ℕ
find_index p [] = none
find_index p (e ∷ es) =
    if p e then some 0 else elim (find_index p es) [ none ↦ none | some i ↦ some (i + 1) ]

-- `log.splice(0, n)`
unfoldable pub drop : ℕ → List AuditEntry → List AuditEntry
drop zero es = es
drop (suc n) [] = []
drop (suc n) (e ∷ es) = drop n es

unfoldable pub sweep_retention : ℕ → AuditLog → ℕ × AuditLog
sweep_retention now s = elim (find_index (is_retained now s.retention_days) s.log) [
  | none ↦ (length s.log, record s { log = [] })
  | some i ↦ (i, record s { log = drop i s.log })
]
