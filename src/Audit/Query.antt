-- ===== src/Audit/Query.antt =====
-- packages/core/src/audit/service.ts: what `queryAudit` returns.
use mathlib.Core.List.{reverse_aux}
use dina_mobile.Prelude.{
  ℕ, zero, suc, ◌≤◌, ◌/◌, String, Bool, true, List, [], ◌∷◌, ◌≡◌, ◌⊎◌, arith, ◌==◌, eq_iff, nat_eq,
  keep, take, length, length-take-le, All, All-map, Bool-cases, inl, inr,
}
use dina_mobile.Audit.HashChain.{AuditEntry}
use dina_mobile.Audit.Service.{
  AuditLog, AuditFilters, query_audit, matches_text, in_range, effective_limit,
}

-- What an entry has to be under the filters; an absent filter asks nothing.
pub record Matches (f : AuditFilters) (e : AuditEntry) : Type 0 where
  pub actor : (f.actor ≡ "") ⊎ (e.fields.actor ≡ f.actor)
  pub action : (f.action ≡ "") ⊎ (e.fields.action ≡ f.action)
  pub resource : (f.resource ≡ "") ⊎ (e.fields.resource ≡ f.resource)
  pub since : (f.since ≡ 0) ⊎ (f.since / 1000 ≤ e.fields.ts)
  pub until : (f.until ≡ 0) ⊎ (e.fields.ts ≤ f.until / 1000)

All-reverse {ℓ κ} :
    {A : Type ℓ} (P : A → Type κ) (xs acc : List A)
    → All P xs
    → All P acc
    → All P (reverse_aux xs acc)
All-reverse P [] acc h k = k
All-reverse P (x ∷ xs) acc h k = All-reverse P xs (x ∷ acc) h.1 (h.0, k)

All-take {ℓ κ} : {A : Type ℓ} (P : A → Type κ) (n : ℕ) (xs : List A) → All P xs → All P (take n xs)
All-take P zero xs h = tt
All-take P (suc n) [] h = tt
All-take P (suc n) (x ∷ xs) h = (h.0, All-take P n xs h.1)

matches_text_inv :
    (filter value : String) → matches_text filter value ≡ true → (filter ≡ "") ⊎ (value ≡ filter)
unfolding matches_text
matches_text_inv filter value h = elim (Bool-cases (filter == "")) [
  | inl t ↦ inl ((eq_iff filter "").0 t)
  | inr f ↦ inr ((eq_iff value filter).0 (ground arith))
]

since_inv :
    (f : AuditFilters) (e : AuditEntry)
    → in_range f e ≡ true
    → (f.since ≡ 0) ⊎ (f.since / 1000 ≤ e.fields.ts)
unfolding in_range
since_inv f e h = elim (Bool-cases (nat_eq f.since 0)) [
  | inl t ↦ inl (ground arith)
  | inr n ↦ inr (ground arith)
]

until_inv :
    (f : AuditFilters) (e : AuditEntry)
    → in_range f e ≡ true
    → (f.until ≡ 0) ⊎ (e.fields.ts ≤ f.until / 1000)
unfolding in_range
until_inv f e h = elim (Bool-cases (nat_eq f.until 0)) [
  | inl t ↦ inl (ground arith)
  | inr n ↦ inr (ground arith)
]

-- Adds what a filter checks to what is known of every entry.
All-filter {ℓ} :
    {A : Type ℓ} (P : A → Type 0) (p : A → Bool) (xs : List A)
    → All P xs
    → All (λ x. P x × (p x ≡ true)) (keep p xs)
All-filter P p [] h = tt
All-filter P p (x ∷ xs) h = elim (Bool-cases (p x)) [
  | inl t ↦ rw (t, keep) ((h.0, t), All-filter P p xs h.1)
  | inr f ↦ rw (f, keep) (All-filter P p xs h.1)
]

trivial {ℓ} : {A : Type ℓ} (xs : List A) → All (λ x. Unit {0}) xs
trivial [] = tt
trivial (x ∷ xs) = (tt, trivial xs)

effective_limit_bounds : (n : ℕ) → (effective_limit n ≤ 200) × ((n ≡ 0) ⊎ (effective_limit n ≤ n))
unfolding effective_limit
effective_limit_bounds n = elim (Bool-cases (nat_eq n 0)) [
  | inl t ↦ rw (t, effective_limit) (omega arith, inl (ground arith))
  | inr f ↦ rw (f, effective_limit) (omega arith, inr (omega arith))
]

-- Every entry that a query returns passes all the filters that are given, and at most 200 entries
-- are returned, at most `limit` where a limit other than 0 is given.
pub query_audit-Matches :
    (f : AuditFilters) (s : AuditLog)
    → All (Matches f) (query_audit f s)
      × (length (query_audit f s) ≤ 200)
      × ((f.limit ≡ 0) ⊎ (length (query_audit f s) ≤ f.limit))
unfolding query_audit
query_audit-Matches f s =
    let by_actor =
      All-filter (λ e. Unit {0}) (λ e. matches_text f.actor e.fields.actor) s.log (trivial s.log) in
    let by_action =
      All-filter _ (λ (e : AuditEntry). matches_text f.action e.fields.action) _ by_actor in
    let by_resource =
      All-filter _ (λ (e : AuditEntry). matches_text f.resource e.fields.resource) _ by_action in
    let in_time = All-filter _ (in_range f) _ by_resource in
    let matching =
      All-map _ (Matches f)
        (λ e h. record {
          actor = matches_text_inv f.actor e.fields.actor h.0.0.0.1;
          action = matches_text_inv f.action e.fields.action h.0.0.1;
          resource = matches_text_inv f.resource e.fields.resource h.0.1;
          since = since_inv f e h.1;
          until = until_inv f e h.1;
        })
        _ in_time in
    let (cap, asked) = effective_limit_bounds f.limit in
    (
      All-take (Matches f) (effective_limit f.limit) _ (All-reverse (Matches f) _ [] matching tt),
      omega (arith, length-take-le {0} (effective_limit f.limit) _),
      elim asked [
        | inl z ↦ inl z
        | inr le ↦ inr (omega (arith, length-take-le {0} (effective_limit f.limit) _))
      ],
    )
