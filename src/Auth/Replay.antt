-- ===== src/Auth/Replay.antt =====
-- packages/core/src/auth/nonce.ts: what becomes of a nonce that comes again.
use dina_mobile.Prelude.{
  sym, subst, ℕ, suc, ◌+◌, ◌≤◌, ◌<◌, String, true, false, List, [], ◌∷◌, ◌++◌, ◌≡◌, ◌⊎◌, inl, inr,
  arith, eq_iff, length, All,
}
use dina_mobile.JsSet
use dina_mobile.JsSet.{has-add}
use dina_mobile.Auth.Nonce.{NonceCache, rotate, maybe_rotate, check}

length-append_one : (k : String) (xs : List String) → length (xs ++ k ∷ []) ≡ length xs + 1
length-append_one k [] = omega arith
length-append_one k (x ∷ xs) = ground (arith, length-append_one k xs)

length-add : (k : String) (xs : List String) → length (JsSet.add k xs) ≤ length xs + 1
unfolding JsSet.add
length-add k xs = ground (arith, length-append_one k xs)

-- The nonce was accepted at `start` or later, and `used` checks have followed: it is in the
-- current buffer, or it is in the previous one, which cannot be dropped before the interval has
-- passed or the current buffer has filled up.
abbrev IsRemembered : String → ℕ → ℕ → NonceCache → Type 0
IsRemembered nonce start used c =
    (JsSet.has nonce c.current ≡ true)
    ⊎ ((JsSet.has nonce c.previous ≡ true) × (start ≤ c.last_rotation) × (length c.current ≤ used))

check-IsRemembered :
    (nonce other : String) (start used now : ℕ) (c : NonceCache)
    → start ≤ now
    → now < start + c.rotation_interval_ms
    → used < c.max_entries
    → IsRemembered nonce start used c
    → IsRemembered nonce start (suc used) (check other now c).1
unfolding check maybe_rotate rotate JsSet.has
check-IsRemembered nonce other start used now c after before few (inl current) = ground (
  arith,
  has-add other nonce c.current,
  has-add other nonce [],
  length-add other [],
  length-add other c.current,
)
check-IsRemembered nonce other start used now c after before few (inr previous) =
    ground (arith, previous, has-add other nonce c.current, length-add other c.current)

unfoldable pub check_all : List (String × ℕ) → NonceCache → NonceCache
unfolding check
check_all [] c = c
check_all ((nonce, now) ∷ checks) c = check_all checks (check nonce now c).1

config-check :
    (nonce : String) (now : ℕ) (c : NonceCache)
    → ((check nonce now c).1.rotation_interval_ms ≡ c.rotation_interval_ms)
      × ((check nonce now c).1.max_entries ≡ c.max_entries)
unfolding check maybe_rotate rotate
config-check nonce now c = (ground arith, ground arith)

accepted-IsRemembered :
    (nonce : String) (now : ℕ) (c : NonceCache)
    → (check nonce now c).0 ≡ true
    → IsRemembered nonce now 0 (check nonce now c).1
unfolding check
accepted-IsRemembered nonce now c h =
    inl (ground (arith, has-add nonce nonce (maybe_rotate now c).current, eq_iff nonce nonce))

remembered-rejected :
    (nonce : String) (start used now : ℕ) (c : NonceCache)
    → start ≤ now
    → now < start + c.rotation_interval_ms
    → used < c.max_entries
    → IsRemembered nonce start used c
    → (check nonce now c).0 ≡ false
unfolding check maybe_rotate rotate
remembered-rejected nonce start used now c after before few (inl current) = ground arith
remembered-rejected nonce start used now c after before few (inr previous) =
    ground (arith, previous)

abbrev IsDuring : ℕ → ℕ → String × ℕ → Type 0
IsDuring start end r = (start ≤ r.1) × (r.1 < end)

check_all-rejects :
    (nonce : String) (start used now : ℕ) (checks : List (String × ℕ)) (c : NonceCache)
    → All (IsDuring start (start + c.rotation_interval_ms)) checks
    → start ≤ now
    → now < start + c.rotation_interval_ms
    → used + length checks < c.max_entries
    → IsRemembered nonce start used c
    → (check nonce now (check_all checks c)).0 ≡ false
unfolding check_all
check_all-rejects nonce start used now [] c during after before few r =
    remembered-rejected nonce start used now c after before (omega arith) r
check_all-rejects nonce start used now ((other, at) ∷ checks) c during after before few r =
    let same = config-check other at c in
    check_all-rejects nonce start (suc used) now checks (check other at c).1
      (subst (λ i. All (IsDuring start (start + i)) checks) (sym same.0) during.1) after
      (ground arith) (ground arith)
      (check-IsRemembered nonce other start used at c during.0.0 during.0.1 (omega arith) r)

-- A nonce that was accepted is rejected for the rotation interval after it, whatever nonces are
-- checked meanwhile, as long as these are fewer than the limit of a buffer.
pub replay_rejected :
    (nonce : String) (start now : ℕ) (checks : List (String × ℕ)) (c : NonceCache)
    → (check nonce start c).0 ≡ true
    → All (λ r. (start ≤ r.1) × (r.1 < start + c.rotation_interval_ms)) checks
    → start ≤ now
    → now < start + c.rotation_interval_ms
    → length checks < c.max_entries
    → (check nonce now (check_all checks (check nonce start c).1)).0 ≡ false
replay_rejected nonce start now checks c accepted during after before few =
    let same = config-check nonce start c in
    check_all-rejects nonce start 0 now checks (check nonce start c).1
      (subst (λ i. All (IsDuring start (start + i)) checks) (sym same.0) during) after
      (ground arith) (ground arith) (accepted-IsRemembered nonce start c accepted)
