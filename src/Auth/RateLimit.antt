-- ===== src/Auth/RateLimit.antt =====
-- packages/core/src/auth/ratelimit.ts: the limiter with a bucket of requests for each DID. `now` is
-- `Date.now()` in milliseconds.
use dina_mobile.Prelude.{
  ℕ, ◌+◌, ◌-◌, ◌*◌, String, Bool, true, false, none, some, leb, ltb, if◌then◌else◌,
}
use dina_mobile.JsMap
use dina_mobile.JsMap.{JsMap}

pub record RateLimitConfig : Type 0 where
  pub max_requests : ℕ
  pub window_seconds : ℕ

pub record Bucket : Type 0 where
  pub count : ℕ
  pub window_start : ℕ

pub record Limiter : Type 0 where
  pub config : RateLimitConfig
  pub buckets : JsMap Bucket

-- `now - windowStart < windowSeconds * 1000`
unfoldable pub is_current : RateLimitConfig → ℕ → Bucket → Bool
is_current config now bucket = ltb now (bucket.window_start + config.window_seconds * 1000)

abbrev pub new_bucket : ℕ → Bucket
new_bucket now = record { count = 0; window_start = now }

-- The bucket that counts at the time `now`, and the map with it.
unfoldable pub get_or_create_bucket : String → ℕ → Limiter → Bucket × Limiter
unfolding is_current
get_or_create_bucket did now l = elim (JsMap.get did l.buckets) [
  | none ↦ (new_bucket now, record l { buckets = JsMap.set did (new_bucket now) l.buckets })
  | some existing ↦
      if is_current l.config now existing
      then (existing, l)
      else (new_bucket now, record l { buckets = JsMap.set did (new_bucket now) l.buckets })
]

unfoldable pub count_request : String → Bucket → Limiter → Limiter
count_request did bucket l = record l {
  buckets = JsMap.set did (record bucket { count = bucket.count + 1 }) l.buckets;
}

unfoldable pub allow : String → ℕ → Limiter → Bool × Limiter
unfolding get_or_create_bucket count_request
allow did now l =
    let (bucket, l') = get_or_create_bucket did now l in
    if leb l.config.max_requests bucket.count
    then (false, l')
    else (true, count_request did bucket l')

unfoldable pub reset : String → Limiter → Limiter
reset did l = record l { buckets = JsMap.delete did l.buckets }

unfoldable pub remaining : String → ℕ → Limiter → ℕ
unfolding is_current
remaining did now l = elim (JsMap.get did l.buckets) [
  | none ↦ l.config.max_requests
  | some bucket ↦
      if is_current l.config now bucket
      then l.config.max_requests - bucket.count
      else l.config.max_requests
]
