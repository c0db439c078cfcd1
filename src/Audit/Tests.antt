-- ===== src/Audit/Tests.antt =====
-- Tests of packages/core/src/audit, and the theorems at concrete logs.
use dina_mobile.Prelude.{
  is_blank, ◌+◌, String, true, none, some, [], ◌∷◌, ◌++◌, ◌≡◌, ◌≢◌, ◌⊎◌, refl, arith, eq_iff,
}
use dina_mobile.Audit.HashChain.{
  AuditEntry, compute_entry_hash, verify_chain, genesis_marker, canonical, build_audit_entry,
  verify_from, compute_prev_hash,
}
use dina_mobile.Audit.Service.{
  AuditLog, AuditFilters, append_audit, next_entry, sweep_retention, verify_audit_chain, last_hash,
  find_index, is_retained,
}
use dina_mobile.Audit.Chain.{append_audit-IsVerified}
use dina_mobile.Audit.Tampering.{verify_chain-tampering, has_no_colon, texts, Collision}
use dina_mobile.Audit.Retention.{sweep_retention-breaks_chain}

-- A hash that never gives the empty text, a colon or the genesis marker.
abbrev short_hash : String → String
short_hash s = "ab"

short_hash-ne : (s : String) → short_hash s ≢ ""
short_hash-ne s e = ground (arith, eq_iff "ab" "")

short_hash-apart : (s : String) → short_hash s ≢ genesis_marker
short_hash-apart s e = ground (arith, eq_iff "ab" "genesis")

short_hash-plain : (s : String) → has_no_colon (short_hash s) ≡ true
unfolding has_no_colon
short_hash-plain s = refl

abbrev first_log : AuditLog
first_log = record {
  log = build_audit_entry short_hash 1 1000 "brain" "vault_query" "/health" "" "" ∷ [];
  next_seq = 2;
  retention_days = 90;
}

abbrev second_entry : AuditEntry
second_entry = build_audit_entry short_hash 2 9000000 "admin" "unlock" "/work" "" "ab"

abbrev second_log : AuditLog
second_log = record first_log { log = first_log.log ++ second_entry ∷ []; next_seq = 3 }

append_audit-IsVerified_example :
    (verify_audit_chain short_hash second_log ≡ none)
    × (second_log.log ≡ first_log.log ++ second_entry ∷ [])
    × (second_entry.fields.seq ≡ first_log.next_seq)
    × (second_log.next_seq ≡ first_log.next_seq + 1)
unfolding append_audit verify_audit_chain verify_chain verify_from build_audit_entry
    compute_entry_hash canonical compute_prev_hash next_entry last_hash is_blank
append_audit-IsVerified_example =
    append_audit-IsVerified short_hash short_hash-ne "admin" "unlock" "/work" "" 9000000 first_log
      second_log second_entry refl refl

-- The log with the last action changed.
abbrev changed_log : AuditLog
changed_log = record second_log {
  log = first_log.log ++ build_audit_entry short_hash 2 9000000 "admin" "lock" "/work" "" "ab" ∷ [];
}

verify_chain-tampering_example :
    (texts second_log.log ≡ texts changed_log.log)
    ⊎ Collision short_hash second_log.log changed_log.log
unfolding verify_chain verify_from build_audit_entry compute_entry_hash canonical compute_prev_hash
    last_hash
verify_chain-tampering_example =
    verify_chain-tampering short_hash short_hash-plain second_log.log changed_log.log refl refl refl
      refl

sweep_retention-breaks_chain_example :
    verify_audit_chain short_hash (sweep_retention 9000000000 second_log).1 ≡ some 0
unfolding verify_audit_chain verify_chain verify_from build_audit_entry compute_entry_hash canonical
    compute_prev_hash sweep_retention find_index is_retained
sweep_retention-breaks_chain_example =
    sweep_retention-breaks_chain short_hash short_hash-apart 9000000000 second_log refl
      (omega arith) (omega arith)

abbrev by_brain : AuditFilters
by_brain = record { actor = "brain"; action = ""; resource = ""; since = 0; until = 0; limit = 1 }
