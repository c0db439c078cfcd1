-- ===== src/Transport/Credit.antt =====
-- packages/core/src/transport: the sends that a message may still have, over each call.
use dina_mobile.Prelude.{
  ℕ, suc, All, ◌+◌, ◌-◌, ◌≤◌, max, String, Bool, true, not, Option, none, some, List, [], ◌∷◌, ◌≡◌,
  ◌≢◌, refl, inl, inr, arith, ◌==◌, eq_iff, if◌then◌else◌, Option-cases,
}
use dina_mobile.JsMap
use dina_mobile.JsMap.{JsMap, IsKeyed, get-set, get-retain, IsKeyed-set, IsKeyed-retain}
use dina_mobile.Transport.Outbox.{
  OutboxEntry, Outbox, delivered, pending, is_delivered, enqueue_message, enqueued, mark_delivered,
  mark_failed, failed_at, delete_expired, is_past_ttl, resume_after_approval, max_retries,
}
use dina_mobile.Transport.Retry.{
  Call, call_enqueue, call_delivered, call_failed, call_expire, call_resume, perform, perform_all,
  mark_failed_twice,
}

-- How many of the ids are `j`.
unfoldable pub count_of : String → List String → ℕ
count_of j [] = 0
count_of j (i ∷ is) = let rest = count_of j is in if i == j then suc rest else rest

abbrev pub count_entries : String → List OutboxEntry → ℕ
count_entries j [] = 0
count_entries j (e ∷ es) = let rest = count_entries j es in if e.id == j then suc rest else rest

-- The sends that a message may still have while `waiting` of them are already due in a pass.
abbrev pub budget : ℕ → Option OutboxEntry → ℕ
budget waiting none = waiting
budget waiting (some e) =
    if is_delivered e.status
    then waiting + (max_retries - suc e.retry_count)
    else max waiting (max_retries - e.retry_count)

abbrev pub IsNamed : Outbox → Type 0
IsNamed b = (k : String) (e : OutboxEntry) → JsMap.get k b ≡ some e → e.id ≡ k

abbrev pub IsOutbox : Outbox → Type 0
IsOutbox b = IsKeyed b × IsNamed b

pub set-IsOutbox :
    (id : String) (e : OutboxEntry) (b : Outbox)
    → e.id ≡ id
    → IsOutbox b
    → IsOutbox (JsMap.set id e b)
set-IsOutbox id e b named h =
    (IsKeyed-set id e b h.0, λ k u found. ground (arith, get-set id k e b, eq_iff id k, h.1 k u))

-- The call neither enqueues nor resumes `j`.
abbrev pub spares : String → Call → Bool
spares j (call_enqueue did payload id now) = not (id == j)
spares j (call_resume id now) = not (id == j)
spares j _ = true

-- Within these bounds: the sends of `j` that were made, and those that may still follow.
abbrev pub Holds : String → ℕ → List String → Outbox → Type 0
Holds j waiting sent b = IsOutbox b × (count_of j sent + budget waiting (JsMap.get j b) ≤ 5)

pub mark_delivered-Holds :
    (j : String) (w : ℕ) (sent : List String) (id : String) (b : Outbox)
    → w ≤ 1
    → Holds j w sent b
    → Holds j w sent (mark_delivered id b)
unfolding mark_delivered
mark_delivered-Holds j w sent id b le h = elim (Option-cases (JsMap.get id b)) [
  | inl gone ↦ ground arith
  | inr (e, found) ↦
      let u : OutboxEntry = record e { status = delivered } in
      ground (arith, set-IsOutbox id u b (h.0.1 id e found) h.0, get-set id j u b, eq_iff id j)
]

pub mark_failed-Holds :
    (j : String) (w : ℕ) (sent : List String) (id : String) (now : ℕ) (b : Outbox)
    → w ≤ 1
    → Holds j w sent b
    → Holds j w sent (mark_failed id now b).1
unfolding mark_failed
mark_failed-Holds j w sent id now b le h = elim (Option-cases (JsMap.get id b)) [
  | inl gone ↦ ground arith
  | inr (e, found) ↦
      let u : OutboxEntry = failed_at now e in
      ground (arith, set-IsOutbox id u b (h.0.1 id e found) h.0, get-set id j u b, eq_iff id j)
]

resume-Holds :
    (j : String) (w : ℕ) (sent : List String) (id : String) (now : ℕ) (b : Outbox)
    → id ≢ j
    → Holds j w sent b
    → Holds j w sent (resume_after_approval id now b).1
unfolding resume_after_approval
resume-Holds j w sent id now b ne h = elim (Option-cases (JsMap.get id b)) [
  | inl gone ↦ ground arith
  | inr (e, found) ↦
      let u : OutboxEntry = record e { status = pending; next_retry_at = now } in
      ground (arith, set-IsOutbox id u b (h.0.1 id e found) h.0, get-set id j u b, eq_iff id j)
]

pub retain-IsOutbox :
    (p : OutboxEntry → Bool) (b : Outbox) → IsOutbox b → IsOutbox (JsMap.retain p b)
retain-IsOutbox p b h = (
  IsKeyed-retain p b h.0,
  λ k u found. ground (arith, get-retain p k b h.0, h.1 k u, Option-cases (JsMap.get k b)),
)

expire-Holds :
    (j : String) (w : ℕ) (sent : List String) (ttl now : ℕ) (b : Outbox)
    → w ≤ 1
    → Holds j w sent b
    → Holds j w sent (delete_expired ttl now b).1
unfolding delete_expired
expire-Holds j w sent ttl now b le h =
    let p : OutboxEntry → Bool = λ entry. not (is_past_ttl ttl now entry) in
    (retain-IsOutbox p b h.0, ground (arith, get-retain p j b h.0.0, Option-cases (JsMap.get j b)))

pub perform-Holds :
    (j : String) (w : ℕ) (sent : List String) (c : Call) (b : Outbox)
    → w ≤ 1
    → spares j c ≡ true
    → Holds j w sent b
    → Holds j w sent (perform c b)
unfolding perform
perform-Holds j w sent (call_enqueue did payload id now) b le sp h =
    unfold enqueue_message in
    ground (
      arith,
      set-IsOutbox id (enqueued id did payload now) b refl h.0,
      get-set id j (enqueued id did payload now) b,
      eq_iff id j,
    )
perform-Holds j w sent (call_delivered id) b le sp h = mark_delivered-Holds j w sent id b le h
perform-Holds j w sent (call_failed id now) b le sp h = mark_failed-Holds j w sent id now b le h
perform-Holds j w sent (call_expire ttl now) b le sp h = expire-Holds j w sent ttl now b le h
perform-Holds j w sent (call_resume id now) b le sp h =
    resume-Holds j w sent id now b (ground (arith, eq_iff id j)) h

pub perform_all-Holds :
    (j : String) (w : ℕ) (sent : List String) (cs : List Call) (b : Outbox)
    → w ≤ 1
    → All (λ c. spares j c ≡ true) cs
    → Holds j w sent b
    → Holds j w sent (perform_all cs b)
unfolding perform_all
perform_all-Holds j w sent [] b le sp h = h
perform_all-Holds j w sent (c ∷ cs) b le sp h =
    perform_all-Holds j w sent cs (perform c b) le sp.1 (perform-Holds j w sent c b le sp.0 h)

pub mark_failed_twice_lem :
    (id : String) (now : ℕ) (b : Outbox) → mark_failed_twice id now b ≡ (mark_failed id now b).1
unfolding mark_failed_twice mark_failed
mark_failed_twice_lem id now b = ground (arith, Option-cases (JsMap.get id b))

-- The message itself is sent: one of its sends is made.
pub accepted-Holds :
    (j : String) (sent : List String) (b : Outbox)
    → Holds j 1 sent b
    → Holds j 0 (j ∷ sent) (mark_delivered j b)
unfolding mark_delivered count_of
accepted-Holds j sent b h = elim (Option-cases (JsMap.get j b)) [
  | inl gone ↦ ground (arith, eq_iff j j)
  | inr (e, found) ↦
      let u : OutboxEntry = record e { status = delivered } in
      ground (arith, set-IsOutbox j u b (h.0.1 j e found) h.0, get-set j j u b, eq_iff j j)
]

pub failed-Holds :
    (j : String) (sent : List String) (now : ℕ) (b : Outbox)
    → Holds j 1 sent b
    → Holds j 0 (j ∷ sent) (mark_failed j now b).1
unfolding mark_failed count_of
failed-Holds j sent now b h = elim (Option-cases (JsMap.get j b)) [
  | inl gone ↦ ground (arith, eq_iff j j)
  | inr (e, found) ↦
      let u : OutboxEntry = failed_at now e in
      ground (arith, set-IsOutbox j u b (h.0.1 j e found) h.0, get-set j j u b, eq_iff j j)
]

-- One send less is due.
pub less-Holds :
    (j : String) (sent : List String) (b : Outbox) → Holds j 1 sent b → Holds j 0 sent b
less-Holds j sent b h = (h.0, ground (arith, Option-cases (JsMap.get j b)))

pub other-Holds :
    (j i : String) (w : ℕ) (sent : List String) (b : Outbox)
    → i ≢ j
    → Holds j w sent b
    → Holds j w (i ∷ sent) b
unfolding count_of
other-Holds j i w sent b ne h = (h.0, ground (arith, eq_iff i j))
