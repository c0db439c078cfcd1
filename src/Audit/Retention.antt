-- ===== src/Audit/Retention.antt =====
-- packages/core/src/audit/service.ts: the sweep of old entries.
use dina_mobile.Prelude.{
  ℕ, zero, suc, ◌+◌, ◌<◌, String, Bool, true, false, none, some, List, [], ◌∷◌, ◌++◌, ◌≡◌, ◌≢◌, ◌⊎◌,
  refl, arith, eq_iff, All, Bool-cases, Option-cases, inl, inr, sym, ap, ◌∙◌, length, head?, subst,
}
use mathlib.Core.List.{append-nil}
use dina_mobile.Audit.HashChain.{
  AuditEntry, genesis_marker, compute_entry_hash, verify_from, verify_chain,
}
use dina_mobile.Audit.Service.{
  AuditLog, verify_audit_chain, is_retained, find_index, drop, sweep_retention,
}
use dina_mobile.Audit.Chain.{verify_from_inv}

-- How the entries are split by the first that `p` takes.
record SplitsAt (p : AuditEntry → Bool) (n : ℕ) (es : List AuditEntry) : Type 0 where
  gone : List AuditEntry
  whole : es ≡ gone ++ drop n es
  count : length gone ≡ n
  old : All (λ e. p e ≡ false) gone

SplitsAt-suc :
    (p : AuditEntry → Bool) (n : ℕ) (e : AuditEntry) (es : List AuditEntry)
    → p e ≡ false
    → SplitsAt p n es
    → SplitsAt p (suc n) (e ∷ es)
unfolding drop
SplitsAt-suc p n e es f s = record {
  gone = e ∷ s.gone;
  whole = ap (λ x. e ∷ x) s.whole;
  count = omega (arith, s.count);
  old = (f, s.old);
}

find_index-SplitsAt :
    (p : AuditEntry → Bool) (i : ℕ) (es : List AuditEntry)
    → find_index p es ≡ some i
    → SplitsAt p i es × ((e : AuditEntry) × (head? (drop i es) ≡ some e) × (p e ≡ true))
unfolding find_index drop
find_index-SplitsAt p i [] h = absurd cc
find_index-SplitsAt p i (e ∷ es) h = elim (Bool-cases (p e)) [
  | inl t ↦
      let z : 0 ≡ i = ground arith in
      subst
        (λ i.
          SplitsAt p i (e ∷ es)
          × ((x : AuditEntry) × (head? (drop i (e ∷ es)) ≡ some x) × (p x ≡ true)))
        z (record { gone = []; whole = refl; count = refl; old = tt }, (e, refl, t))
  | inr f ↦ elim (Option-cases (find_index p es)) [
    | inl gone ↦ absurd (ground arith)
    | inr (j, found) ↦
        let z : suc j ≡ i = ground arith in
        let (split, head) = find_index-SplitsAt p j es found in
        subst
          (λ i.
            SplitsAt p i (e ∷ es)
            × ((x : AuditEntry) × (head? (drop i (e ∷ es)) ≡ some x) × (p x ≡ true)))
          z (SplitsAt-suc p j e es f split, head)
  ]
]

find_index-none :
    (p : AuditEntry → Bool) (es : List AuditEntry)
    → find_index p es ≡ none
    → All (λ e. p e ≡ false) es
unfolding find_index
find_index-none p [] h = tt
find_index-none p (e ∷ es) h = elim (Bool-cases (p e)) [
  | inl t ↦ absurd (ground arith)
  | inr f ↦ elim (Option-cases (find_index p es)) [
    | inl gone ↦ (f, find_index-none p es gone)
    | inr (j, found) ↦ absurd (ground arith)
  ]
]

-- What a sweep at the time `now` leaves of the log.
pub record IsSwept (now days : ℕ) (purged : ℕ) (before after : List AuditEntry) : Type 0 where
  pub gone : List AuditEntry
  pub whole : before ≡ gone ++ after
  pub count : length gone ≡ purged
  pub old : All (λ e. is_retained now days e ≡ false) gone
  pub first :
      (length after ≡ 0)
      ⊎ ((e : AuditEntry) × (head? after ≡ some e) × (is_retained now days e ≡ true))

-- A sweep takes from the front of the log exactly the entries before the first that is within the
-- retention period, and returns how many it took.
pub sweep_retention-IsSwept :
    (now : ℕ) (s : AuditLog)
    → let (purged, s') = sweep_retention now s in IsSwept now s.retention_days purged s.log s'.log
unfolding sweep_retention
sweep_retention-IsSwept now s =
    elim (Option-cases (find_index (is_retained now s.retention_days) s.log)) [
      | inl gone ↦
          rw (gone, sweep_retention)
            record {
              gone = s.log;
              whole = sym (append-nil s.log);
              count = refl;
              old = find_index-none (is_retained now s.retention_days) s.log gone;
              first = inl refl;
            }
      | inr (i, found) ↦
          let (split, head) =
            find_index-SplitsAt (is_retained now s.retention_days) i s.log found in
          rw (found, sweep_retention)
            record {
              gone = split.gone;
              whole = split.whole;
              count = split.count;
              old = split.old;
              first = inr head;
            }
    ]

drop_breaks :
    (hash : String → String) (apart : (s : String) → hash s ≢ genesis_marker) (i n : ℕ) (p : String)
    (es : List AuditEntry)
    → verify_from hash i p es ≡ none
    → n < length es
    → 0 < n
    → verify_chain hash (drop n es) ≡ some 0
unfolding drop verify_chain verify_from compute_entry_hash
drop_breaks hash apart i n p [] h lt pos = absurd (omega arith)
drop_breaks hash apart i zero p (e ∷ es) h lt pos = absurd (omega arith)
drop_breaks hash apart i (suc zero) p (e ∷ []) h lt pos = absurd (omega arith)
drop_breaks hash apart i (suc zero) p (e ∷ f ∷ fs) h lt pos =
    let (ep, eh, rest) = verify_from_inv hash i p e (f ∷ fs) h in
    let (fp, fh, _) = verify_from_inv hash (i + 1) e.entry_hash f fs rest in
    let ne : f.fields.prev_hash ≢ genesis_marker = λ q. apart _ (eh ∙ sym fp ∙ q) in
    ground (arith, ne, eq_iff f.fields.prev_hash genesis_marker)
drop_breaks hash apart i (suc (suc n)) p (e ∷ es) h lt pos =
    let (ep, eh, rest) = verify_from_inv hash i p e es h in
    drop_breaks hash apart (i + 1) (suc n) e.entry_hash es rest (omega arith) (omega arith)

-- Where no hash is the genesis marker: after a sweep that purges some entries of a log that verifies,
-- and leaves some, the log no longer verifies; the check reports its first entry.
pub sweep_retention-breaks_chain :
    (hash : String → String) (apart : (s : String) → hash s ≢ genesis_marker) (now : ℕ)
    (s : AuditLog)
    → verify_audit_chain hash s ≡ none
    → 0 < (sweep_retention now s).0
    → (sweep_retention now s).0 < length s.log
    → verify_audit_chain hash (sweep_retention now s).1 ≡ some 0
unfolding sweep_retention verify_audit_chain verify_chain
sweep_retention-breaks_chain hash apart now s h pos lt =
    elim (Option-cases (find_index (is_retained now s.retention_days) s.log)) [
      | inl gone ↦ absurd (ground arith)
      | inr (i, found) ↦
          rw (found, sweep_retention)
            (drop_breaks hash apart 0 i genesis_marker s.log h (ground arith) (ground arith))
    ]
