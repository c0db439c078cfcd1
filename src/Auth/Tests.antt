-- ===== src/Auth/Tests.antt =====
-- packages/core/src/auth: the guards on concrete requests.
use dina_mobile.Prelude.{◌*◌, ◌≤◌, true, false, none, [], ◌∷◌, ◌≡◌, refl, arith}
use dina_mobile.JsMap
use dina_mobile.JsSet
use dina_mobile.Auth.RateLimit.{Limiter}
use dina_mobile.Auth.Quota.{count_allowed, window_bound}
use dina_mobile.Auth.Nonce.{NonceCache, check, maybe_rotate}
use dina_mobile.Auth.Replay.{check_all, replay_rejected}

abbrev limiter : Limiter
limiter = record { config = record { max_requests = 2; window_seconds = 60 }; buckets = [] }

window_bound_example :
    (count_allowed "did:a" (("did:a", 1000) ∷ ("did:b", 2000) ∷ ("did:a", 3000) ∷ []) limiter
      ≤ 2 * limiter.config.max_requests)
    × (JsMap.get "did:a" limiter.buckets ≡ none
        → count_allowed "did:a" (("did:a", 1000) ∷ ("did:b", 2000) ∷ ("did:a", 3000) ∷ []) limiter
          ≤ limiter.config.max_requests)
window_bound_example =
    window_bound "did:a" 1000 (("did:a", 1000) ∷ ("did:b", 2000) ∷ ("did:a", 3000) ∷ []) limiter
      ((omega arith, omega arith), ((omega arith, omega arith), ((omega arith, omega arith), tt)))

abbrev cache : NonceCache
cache = record {
  current = "n0" ∷ [];
  previous = [];
  last_rotation = 0;
  rotation_interval_ms = 300000;
  max_entries = 3;
}

accepted : (check "n1" 299999 cache).0 ≡ true
unfolding check maybe_rotate JsSet.has
accepted = refl

replay_rejected_example :
    (check "n1" 500000 (check_all (("n2", 300000) ∷ []) (check "n1" 299999 cache).1)).0 ≡ false
replay_rejected_example =
    replay_rejected "n1" 299999 500000 (("n2", 300000) ∷ []) cache accepted
      ((omega arith, omega arith), tt) (omega arith) (omega arith) (omega arith)
