-- ===== src/Gatekeeper/Policy.antt =====
-- packages/core/src/gatekeeper/egress.ts, sharing.ts: what the check of outgoing data lets through.
use dina_mobile.Prelude.{
  sym, subst, ℕ, String, Bool, true, false, none, some, List, [], ◌∷◌, ◌≡◌, ◌≢◌, ◌↔◌, ◌⊎◌, inl, inr,
  refl, arith, ◌==◌, ◌&&◌, eq_iff, keep, All, if◌then◌else◌, Bool-cases,
}
use dina_mobile.Gatekeeper.Sharing.{
  Policies, get_sharing_tier, is_restricted, is_narrow, lower, sharing_loop, SharingDecision,
  check_sharing_policy, decide,
}
use dina_mobile.Gatekeeper.Egress.{EgressData, scrubbed_body, check_egress}

-- The first tier that narrows what is shared.
abbrev pub first_narrow : (String → String) → List String → String
first_narrow tier_of [] = "full"
first_narrow tier_of (cat ∷ cats) =
    let rest = first_narrow tier_of cats in if is_narrow (tier_of cat) then tier_of cat else rest

restricted-sharing_loop :
    (tier_of : String → String) (cats : List String) (lowest : String)
    → (sharing_loop tier_of cats lowest).0 ≡ keep (λ c. is_restricted (tier_of c)) cats
unfolding sharing_loop
restricted-sharing_loop tier_of [] lowest = refl
restricted-sharing_loop tier_of (c ∷ cs) lowest =
    ground (arith, restricted-sharing_loop tier_of cs (lower lowest (tier_of c)))

lower_lem :
    (lowest tier : String)
    → is_restricted tier ≡ false
    → lower lowest tier ≡ (if lowest == "full" && is_narrow tier then tier else lowest)
unfolding lower
lower_lem lowest tier h = ground (arith, eq_iff tier "summary")

narrow_not_full : (tier : String) → is_narrow tier ≡ true → (tier == "full") ≡ false
narrow_not_full tier h = elim (Bool-cases (tier == "full")) [
  | inl e ↦
      absurd (let q = subst (λ t. is_narrow t ≡ true) ((eq_iff tier "full").0 e) h in ground arith)
  | inr e ↦ e
]

lowest-sharing_loop :
    (tier_of : String → String) (cats : List String) (lowest : String)
    → keep (λ c. is_restricted (tier_of c)) cats ≡ []
    → (sharing_loop tier_of cats lowest).1
      ≡ (if lowest == "full" then first_narrow tier_of cats else lowest)
unfolding sharing_loop
lowest-sharing_loop tier_of [] lowest h = ground (arith, eq_iff lowest "full")
lowest-sharing_loop tier_of (c ∷ cs) lowest h =
    let rest = lowest-sharing_loop tier_of cs (lower lowest (tier_of c)) in
    let next = lower_lem lowest (tier_of c) in
    ground (arith, rest, next, narrow_not_full (tier_of c))

narrow_not_restricted : (tier : String) → is_narrow tier ≡ true → is_restricted tier ≡ false
narrow_not_restricted tier h = elim (Bool-cases (tier == "none")) [
  | inl e ↦
      absurd (let q = subst (λ t. is_narrow t ≡ true) ((eq_iff tier "none").0 e) h in ground arith)
  | inr e ↦ elim (Bool-cases (tier == "locked")) [
    | inl l ↦
        absurd
          (let q = subst (λ t. is_narrow t ≡ true) ((eq_iff tier "locked").0 l) h in ground arith)
    | inr l ↦ ground arith
  ]
]

first_narrow_not_restricted :
    (tier_of : String → String) (cats : List String)
    → is_restricted (first_narrow tier_of cats) ≡ false
first_narrow_not_restricted tier_of [] = refl
first_narrow_not_restricted tier_of (c ∷ cs) = ground (
  arith,
  narrow_not_restricted (tier_of c),
  first_narrow_not_restricted tier_of cs,
  Bool-cases (is_narrow (tier_of c)),
)

-- What the policy decides: all is shared at the first narrow tier, or the categories to blame.
abbrev IsDecided : (String → String) → List String → SharingDecision → Type 0
IsDecided tier_of cats d =
    ((d.allowed ≡ true)
      × (keep (λ c. is_restricted (tier_of c)) cats ≡ [])
      × (d.tier ≡ first_narrow tier_of cats))
    ⊎ ((d.allowed ≡ false)
        × (keep (λ c. is_restricted (tier_of c)) cats ≢ [])
        × (d.filtered_categories ≡ keep (λ c. is_restricted (tier_of c)) cats))

policy-IsDecided :
    (contact_did : String) (cats : List String) (ps : Policies)
    → IsDecided
        (λ c. get_sharing_tier contact_did c ps)
        cats
        (check_sharing_policy contact_did cats ps)
unfolding check_sharing_policy
policy-IsDecided contact_did cats ps =
    let tier_of : String → String = λ c. get_sharing_tier contact_did c ps in
    decided (sharing_loop tier_of cats "full").0 (sharing_loop tier_of cats "full").1
      (restricted-sharing_loop tier_of cats "full") (λ h. lowest-sharing_loop tier_of cats "full" h)
  where
    decided :
        (filtered : List String) (lowest : String)
        → filtered ≡ keep (λ c. is_restricted (get_sharing_tier contact_did c ps)) cats
        → (keep (λ c. is_restricted (get_sharing_tier contact_did c ps)) cats ≡ []
            → lowest ≡ first_narrow (λ c. get_sharing_tier contact_did c ps) cats)
        → IsDecided (λ c. get_sharing_tier contact_did c ps) cats (decide (filtered, lowest))
    decided [] lowest e low = inl (refl, sym e, low (sym e))
    decided (x ∷ xs) lowest e low = inr (refl, (λ q. cc), e)

none_kept :
    (p : String → Bool) (cats : List String) → (keep p cats ≡ []) ↔ All (λ c. p c ≡ false) cats
none_kept p [] = (λ h. tt, λ h. refl)
none_kept p (c ∷ cs) =
    (λ h. ground (arith, (none_kept p cs).0), λ h. ground (arith, (none_kept p cs).1 h.1))

module _ (scrub : String → String × ℕ) where
  -- Data leaves exactly if no category of it has the tier none or locked for the contact. If it does
  -- not leave, nothing of it does, and the categories to blame are reported. If it leaves, its text is
  -- scrubbed, its tier is the first narrow one of its categories in their order, and its body is
  -- scrubbed, or dropped if that tier is summary.
  pub egress_exact :
      (data' : EgressData) (contact_did : String) (ps : Policies)
      → let r = check_egress scrub data' contact_did ps in
        let tier_of : String → String = λ c. get_sharing_tier contact_did c ps in
        ((r.allowed ≡ true) ↔ All (λ c. is_restricted (tier_of c) ≡ false) data'.categories)
        × (r.allowed ≡ false
            → (r.filtered_text ≡ "")
              × (r.filtered_body ≡ none)
              × (r.blocked_categories ≡ keep (λ c. is_restricted (tier_of c)) data'.categories))
        × (r.allowed ≡ true
            → (r.filtered_text ≡ (scrub data'.text).0)
              × (r.applied_tier ≡ first_narrow tier_of data'.categories)
              × (r.filtered_body ≡ (
                  if first_narrow tier_of data'.categories == "summary"
                  then none
                  else scrubbed_body scrub data'.body)))
  unfolding check_egress
  egress_exact data' contact_did ps =
      let tier_of : String → String = λ c. get_sharing_tier contact_did c ps in
      let cats = data'.categories in
      let none_kept_iff = none_kept (λ c. is_restricted (tier_of c)) cats in
      let narrow = first_narrow_not_restricted tier_of cats in
      elim (policy-IsDecided contact_did cats ps) [
        | inl (allowed, none_restricted, tier) ↦ (
          (λ h. none_kept_iff.0 none_restricted, λ h. ground arith),
          λ h. ground arith,
          λ h. ground arith,
        )
        | inr (refused, restricted, blame) ↦ (
          (λ h. absurd (ground arith), λ h. absurd (restricted (none_kept_iff.1 h))),
          λ h. ground arith,
          λ h. absurd (ground arith),
        )
      ]

  -- Data with a body, in a category shared by arrival time only and one shared by summary only: its
  -- body leaves, scrubbed, if the first comes first, and is dropped if the second does.
  pub order_decides_body :
      (text body eta_cat summary_cat contact_did : String) (ps : Policies)
      → get_sharing_tier contact_did eta_cat ps ≡ "eta_only"
      → get_sharing_tier contact_did summary_cat ps ≡ "summary"
      → body ≢ ""
      → let data_of : List String → EgressData =
          λ cats. record { text = text; categories = cats; body = some body } in
        ((check_egress scrub (data_of (eta_cat ∷ summary_cat ∷ [])) contact_did ps).filtered_body
          ≡ some (scrub body).0)
        × ((check_egress scrub (data_of (summary_cat ∷ eta_cat ∷ [])) contact_did ps).filtered_body
            ≡ none)
  unfolding check_egress check_sharing_policy sharing_loop lower
  order_decides_body text body eta_cat summary_cat contact_did ps eta summary present =
      rw (eta, summary) (ground (arith, eq_iff body ""), refl)
