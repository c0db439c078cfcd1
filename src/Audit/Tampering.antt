-- ===== src/Audit/Tampering.antt =====
-- packages/core/src/audit/hash_chain.ts: what the chain shows of a log that was changed.
use Prim.Native.Char.{code}
use Prim.Native.String.{◌++◌ as ◌+++◌}
use text.Mathlib.TextLemmas.{nil-append, cons-append, append_assoc}
use dina_mobile.Prelude.{
  ℕ, ◌+◌, String, Bool, true, none, List, [], ◌∷◌, ◌≡◌, ◌≢◌, ◌⊎◌, refl, arith, ◌==◌, eq_iff,
  if◌then◌else◌, ◌&&◌, not, nat_eq, Bool-cases, inl, inr, sym, ap, ◌∙◌, length, map,
}
use dina_mobile.Audit.HashChain.{
  EntryFields, AuditEntry, canonical, genesis_marker, compute_entry_hash, verify_from, verify_chain,
}
use dina_mobile.Audit.Service.{last_hash}
use dina_mobile.Audit.Chain.{verify_from_inv}

-- No colon stands in the text.
unfoldable pub has_no_colon : String → Bool
has_no_colon String.[] = true
has_no_colon (String.◌∷◌ c s) = not (nat_eq (code c) b':') && has_no_colon s

-- What stands after the last colon.
after_colon : String → String → String
after_colon seen String.[] = seen
after_colon seen (String.◌∷◌ c s) = after_colon (if nat_eq (code c) b':' then s else seen) s

after_colon-none : (seen s : String) → has_no_colon s ≡ true → after_colon seen s ≡ seen
unfolding after_colon has_no_colon
after_colon-none seen String.[] h = refl
after_colon-none seen (String.◌∷◌ c s) h = ground (arith, after_colon-none seen s)

-- What stands before a text that ends so is passed over.
after_colon-skip :
    (s t p : String)
    → ((seen : String) → after_colon seen t ≡ p)
    → (seen : String) → after_colon seen (s +++ t) ≡ p
unfolding after_colon
after_colon-skip String.[] t p h seen = ap (after_colon seen) (nil-append t) ∙ h seen
after_colon-skip (String.◌∷◌ c s) t p h seen =
    ap (after_colon seen) (cons-append c s t)
    ∙ after_colon-skip s t p h (if nat_eq (code c) b':' then s +++ t else seen)

after_colon-colon :
    (p : String) → has_no_colon p ≡ true → (seen : String) → after_colon seen (":" +++ p) ≡ p
unfolding after_colon
after_colon-colon p h seen =
    ap (after_colon seen) (cons-append ":" "" p)
    ∙ ap (λ x. after_colon x x) (nil-append p)
    ∙ after_colon-none p p h

after_colon-canonical :
    (e : EntryFields) → has_no_colon e.prev_hash ≡ true → after_colon "" (canonical e) ≡ e.prev_hash
unfolding canonical
after_colon-canonical e h =
    let skip = λ (s t : String) (k : (seen : String) → after_colon seen t ≡ e.prev_hash).
      after_colon-skip s t e.prev_hash k in
    skip _ _
      (skip _ _ (
        skip _ _ (
          skip _ _ (
            skip _ _ (
              skip _ _ (
                skip _ _ (
                  skip _ _ (skip _ _ (skip _ _ (skip _ _ (after_colon-colon e.prev_hash h)))))))))))
      ""

-- At some place both logs have an entry, of different texts and with one hash.
unfoldable pub Collision : (String → String) → List AuditEntry → List AuditEntry → Type 0
Collision hash [] fs = ⊥
Collision hash (e ∷ es) [] = ⊥
Collision hash (e ∷ es) (f ∷ fs) =
    ((canonical e.fields ≢ canonical f.fields)
      × (hash (canonical e.fields) ≡ hash (canonical f.fields)))
    ⊎ Collision hash es fs

-- The texts that the entries of a log were hashed from.
abbrev pub texts : List AuditEntry → List String
texts es = map (λ e. canonical e.fields) es

-- The logs were hashed from the same texts, and start after the same hash.
abbrev Same : String → String → List AuditEntry → List AuditEntry → Type 0
Same p q es fs = (texts es ≡ texts fs) × (p ≡ q)

genesis_plain : has_no_colon genesis_marker ≡ true
unfolding has_no_colon
genesis_plain = refl

module _ (hash : String → String) (plain : (s : String) → has_no_colon (hash s) ≡ true) where
  same_text : (a b : String) → hash a ≡ hash b → (a ≡ b) ⊎ ((a ≢ b) × (hash a ≡ hash b))
  same_text a b e = elim (Bool-cases (a == b)) [
    | inl t ↦ inl ((eq_iff a b).0 t)
    | inr f ↦ inr ((λ q. ground (arith, eq_iff a b)), e)
  ]

  -- Entries with one hash were hashed from one text.
  same_entry :
      (e f : AuditEntry)
      → compute_entry_hash hash e.fields ≡ e.entry_hash
      → compute_entry_hash hash f.fields ≡ f.entry_hash
      → e.entry_hash ≡ f.entry_hash
      → (canonical e.fields ≡ canonical f.fields)
        ⊎ ((canonical e.fields ≢ canonical f.fields)
            × (hash (canonical e.fields) ≡ hash (canonical f.fields)))
  unfolding compute_entry_hash
  same_entry e f he hf q = same_text (canonical e.fields) (canonical f.fields) (he ∙ q ∙ sym hf)

  same_prev :
      (p q : String) (e f : EntryFields)
      → has_no_colon p ≡ true
      → has_no_colon q ≡ true
      → e.prev_hash ≡ p
      → f.prev_hash ≡ q
      → canonical e ≡ canonical f
      → p ≡ q
  same_prev p q e f np nq hp hq same =
      sym hp
      ∙ sym (after_colon-canonical e (ap has_no_colon hp ∙ np))
      ∙ ap (after_colon "") same
      ∙ after_colon-canonical f (ap has_no_colon hq ∙ nq)
      ∙ hq

  Same-cons :
      (p q : String) (e f : AuditEntry) (es fs : List AuditEntry)
      → has_no_colon p ≡ true
      → has_no_colon q ≡ true
      → e.fields.prev_hash ≡ p
      → f.fields.prev_hash ≡ q
      → texts es ≡ texts fs
      → (canonical e.fields ≡ canonical f.fields)
        ⊎ ((canonical e.fields ≢ canonical f.fields)
            × (hash (canonical e.fields) ≡ hash (canonical f.fields)))
      → Same p q (e ∷ es) (f ∷ fs) ⊎ Collision hash (e ∷ es) (f ∷ fs)
  unfolding Collision
  Same-cons p q e f es fs np nq hp hq t (inr c) = inr (inl c)
  Same-cons p q e f es fs np nq hp hq t (inl same) = inl (
    ap (λ x. x ∷ texts es) same ∙ ap (λ xs. canonical f.fields ∷ xs) t,
    same_prev p q e.fields f.fields np nq hp hq same,
  )

  entry_hash-plain :
      (e : AuditEntry)
      → compute_entry_hash hash e.fields ≡ e.entry_hash
      → has_no_colon e.entry_hash ≡ true
  unfolding compute_entry_hash
  entry_hash-plain e he = ap has_no_colon (sym he) ∙ plain (canonical e.fields)

  Same-or_Collision :
      (i : ℕ) (p q : String) (es fs : List AuditEntry)
      → has_no_colon p ≡ true
      → has_no_colon q ≡ true
      → verify_from hash i p es ≡ none
      → verify_from hash i q fs ≡ none
      → length es ≡ length fs
      → last_hash p es ≡ last_hash q fs
      → Same p q es fs ⊎ Collision hash es fs
  unfolding last_hash Collision
  Same-or_Collision i p q [] [] np nq he hf l z = inl (refl, z)
  Same-or_Collision i p q [] (f ∷ fs) np nq he hf l z = absurd (omega arith)
  Same-or_Collision i p q (e ∷ es) [] np nq he hf l z = absurd (omega arith)
  Same-or_Collision i p q (e ∷ es) (f ∷ fs) np nq he hf l z =
      let (ep, eh, erest) = verify_from_inv hash i p e es he in
      let (fp, fh, frest) = verify_from_inv hash i q f fs hf in
      let ih =
        Same-or_Collision (i + 1) e.entry_hash f.entry_hash es fs (entry_hash-plain e eh)
          (entry_hash-plain f fh) erest frest (omega arith) z in
      elim ih [
        | inr c ↦ inr (inr c)
        | inl (t, q') ↦ Same-cons p q e f es fs np nq ep fp t (same_entry e f eh fh q')
      ]

  -- Where no hash contains a colon: two logs of one length that both verify and end with the same
  -- hash were hashed from the same texts, entry by entry, or at some place they have entries of different texts with one hash.
  pub verify_chain-tampering :
      (es fs : List AuditEntry)
      → verify_chain hash es ≡ none
      → verify_chain hash fs ≡ none
      → length es ≡ length fs
      → last_hash "" es ≡ last_hash "" fs
      → (texts es ≡ texts fs) ⊎ Collision hash es fs
  unfolding verify_chain last_hash
  verify_chain-tampering [] [] he hf l z = inl refl
  verify_chain-tampering [] (f ∷ fs) he hf l z = absurd (omega arith)
  verify_chain-tampering (e ∷ es) [] he hf l z = absurd (omega arith)
  verify_chain-tampering (e ∷ es) (f ∷ fs) he hf l z =
      elim (Same-or_Collision 0 genesis_marker genesis_marker (e ∷ es) (f ∷ fs) genesis_plain
        genesis_plain he hf l z) [ inr c ↦ inr c | inl (t, _) ↦ inl t ]

-- The same text for two entries: what stands after a colon of the actor can be read as the action.
pub canonical_ambiguous :
    (hash : String → String) (e : EntryFields) (a b c : String)
    → (compute_entry_hash hash (record e { actor = a; action = b +++ (":" +++ c) })
        ≡ compute_entry_hash hash (record e { actor = a +++ (":" +++ b); action = c }))
unfolding compute_entry_hash canonical
canonical_ambiguous hash e a b c = ap hash (simp append_assoc refl)
