-- ===== src/Staging/Claims.antt =====
-- packages/core/src/staging/service.ts: what `claim` takes.
use dina_mobile.Prelude.{
  ℕ, zero, suc, ◌+◌, Option, [], ◌∷◌, ◌≡◌, arith, or_default, length, All, if◌then◌else◌, min,
}
use dina_mobile.JsMap.{JsMap}
use dina_mobile.Staging.StateMachine.{received, classifying, same_status, staging_lease_duration_s}
use dina_mobile.Staging.Inbox.{StagingItem, Inbox, claim, claim_loop}

-- How many items are received.
unfoldable pub waiting : JsMap StagingItem → ℕ
waiting [] = 0
waiting ((id, a) ∷ m) =
    let rest = waiting m in if same_status a.status received then suc rest else rest

abbrev IsClaimed : ℕ → StagingItem → Type 0
IsClaimed until a = (a.status ≡ classifying) × (a.lease_until ≡ until)

claim_loop-count :
    (left now lease : ℕ) (m : JsMap StagingItem)
    → (length (claim_loop left now lease m).1 ≡ min left (waiting m))
      × (waiting (claim_loop left now lease m).0 + length (claim_loop left now lease m).1
          ≡ waiting m)
unfolding claim_loop waiting
claim_loop-count zero now lease m = (omega arith, omega arith)
claim_loop-count (suc left) now lease [] = (omega arith, omega arith)
claim_loop-count (suc left) now lease ((id, a) ∷ m) =
    ground (arith, claim_loop-count (suc left) now lease m, claim_loop-count left now lease m)

claim_loop-IsClaimed :
    (left now lease : ℕ) (m : JsMap StagingItem)
    → All (IsClaimed (now + lease)) (claim_loop left now lease m).1
unfolding claim_loop
claim_loop-IsClaimed zero now lease m = tt
claim_loop-IsClaimed (suc left) now lease [] = tt
claim_loop-IsClaimed (suc left) now lease ((id, a) ∷ m) =
    ground
      (arith, claim_loop-IsClaimed (suc left) now lease m, claim_loop-IsClaimed left now lease m)

-- A claim takes as many received items as there are, up to the limit; they are now classifying under
-- the lease, and the received items that stay are those that it did not take.
pub claim_takes :
    (limit : ℕ) (lease : Option ℕ) (now : ℕ) (b : Inbox)
    → let (claimed, after) = claim limit lease now b in
      (length claimed ≡ min limit (waiting b.items))
      × (waiting after.items + length claimed ≡ waiting b.items)
      × All
          (λ a.
            (a.status ≡ classifying)
            × (a.lease_until ≡ now + or_default lease staging_lease_duration_s))
          claimed
unfolding claim
claim_takes limit lease now b =
    let d = or_default lease staging_lease_duration_s in
    let (taken, left) = claim_loop-count limit now d b.items in
    (taken, left, claim_loop-IsClaimed limit now d b.items)
