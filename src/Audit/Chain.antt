-- ===== src/Audit/Chain.antt =====
-- packages/core/src/audit: the chain of a log that is appended to.
use dina_mobile.Prelude.{
  ℕ, ◌+◌, ◌≤◌, String, none, List, [], ◌∷◌, ◌++◌, ◌≡◌, ◌≢◌, refl, arith, eq_iff, ok, sym, ap, ◌∙◌,
}
use dina_mobile.Audit.HashChain.{
  AuditEntry, genesis_marker, compute_prev_hash, compute_entry_hash, build_audit_entry, verify_from,
  verify_chain,
}
use dina_mobile.Audit.Service.{AuditLog, last_hash, next_entry, append_audit, verify_audit_chain}

module _ (hash : String → String) where
  -- What the check of the first entry has seen when it succeeds.
  pub verify_from_inv :
      (i : ℕ) (p : String) (e : AuditEntry) (es : List AuditEntry)
      → verify_from hash i p (e ∷ es) ≡ none
      → (e.fields.prev_hash ≡ p)
        × (compute_entry_hash hash e.fields ≡ e.entry_hash)
        × (verify_from hash (i + 1) e.entry_hash es ≡ none)
  unfolding verify_from
  verify_from_inv i p e es h =
      ground
        (arith, eq_iff e.fields.prev_hash p, eq_iff (compute_entry_hash hash e.fields) e.entry_hash)

  pub verify_from_step :
      (i : ℕ) (p : String) (e : AuditEntry) (es : List AuditEntry)
      → e.fields.prev_hash ≡ p
      → compute_entry_hash hash e.fields ≡ e.entry_hash
      → verify_from hash i p (e ∷ es) ≡ verify_from hash (i + 1) e.entry_hash es
  unfolding verify_from
  verify_from_step i p e es hp he =
      ground
        (arith, eq_iff e.fields.prev_hash p, eq_iff (compute_entry_hash hash e.fields) e.entry_hash)

  verify_from-append :
      (i : ℕ) (p : String) (es : List AuditEntry) (e : AuditEntry)
      → verify_from hash i p es ≡ none
      → e.fields.prev_hash ≡ last_hash p es
      → compute_entry_hash hash e.fields ≡ e.entry_hash
      → verify_from hash i p (es ++ e ∷ []) ≡ none
  unfolding last_hash verify_from
  verify_from-append i p [] e h hp he = verify_from_step i p e [] hp he
  verify_from-append i p (f ∷ fs) e h hp he =
      let (fp, fe, rest) = verify_from_inv i p f fs h in
      verify_from_step i p f (fs ++ e ∷ []) fp fe
      ∙ verify_from-append (i + 1) f.entry_hash fs e rest hp he

  entry_hash-nonempty :
      (hashes : (s : String) → hash s ≢ "") (f : AuditEntry)
      → compute_entry_hash hash f.fields ≡ f.entry_hash
      → f.entry_hash ≢ ""
  unfolding compute_entry_hash
  entry_hash-nonempty hashes f fe e = hashes _ (fe ∙ e)

  last_hash-nonempty :
      (hashes : (s : String) → hash s ≢ "") (i : ℕ) (p : String) (es : List AuditEntry)
      → verify_from hash i p es ≡ none
      → p ≢ ""
      → last_hash p es ≢ ""
  unfolding last_hash
  last_hash-nonempty hashes i p [] h ne = ne
  last_hash-nonempty hashes i p (f ∷ fs) h ne =
      let (fp, fe, rest) = verify_from_inv i p f fs h in
      last_hash-nonempty hashes (i + 1) f.entry_hash fs rest (entry_hash-nonempty hashes f fe)

  prev_hash_of_next :
      (hashes : (s : String) → hash s ≢ "") (es : List AuditEntry)
      → verify_chain hash es ≡ none
      → compute_prev_hash (last_hash "" es) ≡ last_hash genesis_marker es
  unfolding verify_chain compute_prev_hash last_hash
  prev_hash_of_next hashes [] h = refl
  prev_hash_of_next hashes (f ∷ fs) h =
      let ne =
        last_hash-nonempty hashes 0 genesis_marker (f ∷ fs) h
          (λ e. ground (arith, eq_iff genesis_marker "")) in
      ground (arith, eq_iff (last_hash f.entry_hash fs) "")

  chain-append_next :
      (hashes : (s : String) → hash s ≢ "") (actor action resource detail : String) (ts : ℕ)
      (s : AuditLog)
      → verify_audit_chain hash s ≡ none
      → verify_chain hash (s.log ++ next_entry hash actor action resource detail ts s ∷ []) ≡ none
  unfolding verify_audit_chain verify_chain next_entry build_audit_entry
  chain-append_next hashes actor action resource detail ts s h =
      verify_from-append 0 genesis_marker s.log (next_entry hash actor action resource detail ts s)
        h (prev_hash_of_next hashes s.log h) refl

  pub append_audit_inv :
      (actor action resource detail : String) (ts : ℕ) (s s' : AuditLog) (entry : AuditEntry)
      → append_audit hash actor action resource detail ts s ≡ ok (entry, s')
      → (entry ≡ next_entry hash actor action resource detail ts s)
        × (s'.log ≡ s.log ++ next_entry hash actor action resource detail ts s ∷ [])
        × (s'.next_seq ≡ s.next_seq + 1)
  unfolding append_audit
  append_audit_inv actor action resource detail ts s s' entry h = ground arith

  -- Where no hash is the empty text and the chain verifies, an entry that is accepted is put at the
  -- end with the next sequence number, the number goes up by one, and the chain verifies again.
  pub append_audit-IsVerified :
      (hashes : (s : String) → hash s ≢ "") (actor action resource detail : String) (ts : ℕ)
      (s s' : AuditLog) (entry : AuditEntry)
      → verify_audit_chain hash s ≡ none
      → append_audit hash actor action resource detail ts s ≡ ok (entry, s')
      → (verify_audit_chain hash s' ≡ none)
        × (s'.log ≡ s.log ++ entry ∷ [])
        × (entry.fields.seq ≡ s.next_seq)
        × (s'.next_seq ≡ s.next_seq + 1)
  unfolding verify_audit_chain next_entry build_audit_entry
  append_audit-IsVerified hashes actor action resource detail ts s s' entry h e =
      let (same, log, seq) = append_audit_inv actor action resource detail ts s s' entry e in
      (
        ap (verify_chain hash) log ∙ chain-append_next hashes actor action resource detail ts s h,
        log ∙ ap (λ x. s.log ++ x ∷ []) (sym same),
        ap (λ (x : AuditEntry). x.fields.seq) same,
        seq,
      )

-- The sequence numbers go up from `lo` on, and all are below `hi`.
abbrev pub IsAscending : ℕ → ℕ → List AuditEntry → Type 0
IsAscending lo hi [] = lo ≤ hi
IsAscending lo hi (e ∷ es) = (lo ≤ e.fields.seq) × IsAscending (e.fields.seq + 1) hi es

pub IsAscending-append :
    (lo hi : ℕ) (es : List AuditEntry) (e : AuditEntry)
    → IsAscending lo hi es
    → e.fields.seq ≡ hi
    → IsAscending lo (hi + 1) (es ++ e ∷ [])
IsAscending-append lo hi [] e h q = omega arith
IsAscending-append lo hi (f ∷ fs) e h q = (h.0, IsAscending-append (f.fields.seq + 1) hi fs e h.1 q)
