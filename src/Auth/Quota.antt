-- ===== src/Auth/Quota.antt =====
-- packages/core/src/auth/ratelimit.ts: how many requests of a DID are allowed.
use dina_mobile.Prelude.{
  sym, subst, ◌&&◌, ℕ, suc, ◌+◌, ◌-◌, ◌*◌, ◌≤◌, ◌<◌, String, Bool, true, false, Option, none, some,
  List, [], ◌∷◌, ◌≡◌, ◌≢◌, inl, inr, arith, ◌==◌, eq_iff, leb, ltb, All, if◌then◌else◌,
  Option-cases,
}
use dina_mobile.JsMap
use dina_mobile.JsMap.{get-set}
use dina_mobile.Auth.RateLimit.{
  RateLimitConfig, Bucket, Limiter, is_current, new_bucket, get_or_create_bucket, count_request,
  allow, remaining,
}

get-allow :
    (did j : String) (now : ℕ) (l : Limiter)
    → did ≢ j
    → JsMap.get j (allow did now l).1.buckets ≡ JsMap.get j l.buckets
unfolding allow get_or_create_bucket count_request
get-allow did j now l ne = elim (Option-cases (JsMap.get did l.buckets)) [
  | inl gone ↦ ground (
    arith,
    get-set did j (new_bucket now) l.buckets,
    get-set did j (record { count = 1; window_start = now })
        (JsMap.set did (new_bucket now) l.buckets),
    eq_iff did j,
  )
  | inr (b, found) ↦ ground (
    arith,
    get-set did j (new_bucket now) l.buckets,
    get-set did j (record b { count = b.count + 1 }) l.buckets,
    get-set did j (record { count = 1; window_start = now })
        (JsMap.set did (new_bucket now) l.buckets),
    eq_iff did j,
  )
]

-- What `allow` makes of the DID's own bucket.
abbrev counted : RateLimitConfig → ℕ → Option Bucket → Bool × Bucket
counted config now none =
    if leb config.max_requests 0
    then (false, new_bucket now)
    else (true, record { count = 1; window_start = now })
counted config now (some b) =
    if is_current config now b
    then (if leb config.max_requests b.count
        then (false, b)
        else (true, record b { count = b.count + 1 }))
    else if leb config.max_requests 0
    then (false, new_bucket now)
    else (true, record { count = 1; window_start = now })

allow_self :
    (did : String) (now : ℕ) (l : Limiter)
    → let c = counted l.config now (JsMap.get did l.buckets) in
      ((allow did now l).0 ≡ c.0)
      × (JsMap.get did (allow did now l).1.buckets ≡ some c.1)
      × ((allow did now l).1.config ≡ l.config)
unfolding allow get_or_create_bucket count_request
allow_self did now l = elim (Option-cases (JsMap.get did l.buckets)) [
  | inl gone ↦ ground (
    arith,
    get-set did did (new_bucket now) l.buckets,
    get-set did did (record { count = 1; window_start = now })
        (JsMap.set did (new_bucket now) l.buckets),
    eq_iff did did,
  )
  | inr (b, found) ↦ ground (
    arith,
    get-set did did (new_bucket now) l.buckets,
    get-set did did (record b { count = b.count + 1 }) l.buckets,
    get-set did did (record { count = 1; window_start = now })
        (JsMap.set did (new_bucket now) l.buckets),
    eq_iff did did,
  )
]

-- With a window that is not empty, a request is allowed exactly if some remain for its DID; after it
-- one less remains at the same time, none staying none, and the other DIDs keep what they have
-- at any time.
pub allow-remaining :
    (did : String) (now : ℕ) (l : Limiter)
    → 0 < l.config.window_seconds
    → let (allowed, after) = allow did now l in
      (allowed ≡ ltb 0 (remaining did now l))
      × (remaining did now after ≡ remaining did now l - 1)
      × ((j : String) (later : ℕ) → did ≢ j → remaining j later after ≡ remaining j later l)
unfolding remaining
allow-remaining did now l positive =
    unfold is_current in
    (
      ground (arith, allow_self did now l),
      ground (arith, allow_self did now l),
      λ j later ne. ground (arith, get-allow did j now l ne, allow_self did now l),
    )

-- The requests in their order, and how many of the DID's are allowed.
unfoldable pub count_allowed : String → List (String × ℕ) → Limiter → ℕ
unfolding allow
count_allowed did [] l = 0
count_allowed did ((d, now) ∷ requests) l =
    let (allowed, l') = allow d now l in
    let rest = count_allowed did requests l' in if d == did && allowed then suc rest else rest

-- What may still be allowed in a window that begins at `start`: a bucket that is older gives
-- way to a new one once at most.
abbrev quota : RateLimitConfig → ℕ → Option Bucket → ℕ
quota config start none = config.max_requests
quota config start (some b) =
    if leb start b.window_start
    then config.max_requests - b.count
    else config.max_requests - b.count + config.max_requests

abbrev IsWithin : ℕ → ℕ → String × ℕ → Type 0
IsWithin start end r = (start ≤ r.1) × (r.1 < end)

allowed_in_quota :
    (did : String) (start : ℕ) (requests : List (String × ℕ)) (l : Limiter)
    → All (IsWithin start (start + l.config.window_seconds * 1000)) requests
    → count_allowed did requests l ≤ quota l.config start (JsMap.get did l.buckets)
unfolding count_allowed is_current
allowed_in_quota did start [] l within = omega arith
allowed_in_quota did start ((d, now) ∷ requests) l within =
    let after = (allow d now l).1 in
    let same : after.config ≡ l.config = (allow_self d now l).2 in
    let rest = allowed_in_quota did start requests after (
      subst (λ c. All (IsWithin start (start + c.window_seconds * 1000)) requests) (sym same)
        within.1) in
    ground (
      arith,
      rest,
      allow_self d now l,
      get-allow d did now l,
      eq_iff d did,
      within.0,
      Option-cases (JsMap.get did l.buckets),
    )

-- Of any requests within the time of one window, in any order and from any DIDs, at most twice the
-- limit are allowed for a DID, and at most the limit if it had no bucket before.
pub window_bound :
    (did : String) (start : ℕ) (requests : List (String × ℕ)) (l : Limiter)
    → All (λ r. (start ≤ r.1) × (r.1 < start + l.config.window_seconds * 1000)) requests
    → (count_allowed did requests l ≤ 2 * l.config.max_requests)
      × (JsMap.get did l.buckets ≡ none → count_allowed did requests l ≤ l.config.max_requests)
window_bound did start requests l within =
    let bound = allowed_in_quota did start requests l within in
    (ground (arith, bound, Option-cases (JsMap.get did l.buckets)), λ absent. ground (arith, bound))
