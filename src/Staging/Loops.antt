-- ===== src/Staging/Loops.antt =====
-- packages/core/src/staging/service.ts: how the loops of `claim`, `sweep` and `drainForPersona`
-- change the item at any id.
use dina_mobile.Prelude.{
  ℕ, zero, suc, String, true, none, some, List, [], ◌∷◌, ◌≡◌, refl, arith, eq_iff, ◌∙◌,
}
use dina_mobile.JsMap
use dina_mobile.JsMap.{JsMap, IsKeyed, get-set, get-update_all}
use dina_mobile.Staging.StateMachine.{received, same_status_iff, is_valid_transition}
use dina_mobile.Staging.Inbox.{StagingItem, Inbox, claim_loop, claimed_item}
use dina_mobile.Staging.Sweep.{
  SweepResult, sweep_loop, sweep_item, drain_calls, drain_status, drain_item,
}
use dina_mobile.Staging.Steps.{legal_change, legal, legal_self, legal-none, legal-some, legal_move}

pub legal-claim_loop :
    (j : String) (left now lease : ℕ) (m : JsMap StagingItem)
    → legal (JsMap.get j m) (JsMap.get j (claim_loop left now lease m).0) ≡ true
unfolding claim_loop JsMap.get
legal-claim_loop j zero now lease m = legal_self (JsMap.get j m)
legal-claim_loop j (suc left) now lease [] = unfold legal in refl
legal-claim_loop j (suc left) now lease ((id, a) ∷ m) = ground (
  arith,
  legal_self (some a),
  same_status_iff a.status received,
  legal_move a (claimed_item now lease a),
  legal-some a (claimed_item now lease a),
  legal-claim_loop j (suc left) now lease m,
  legal-claim_loop j left now lease m,
)

legal-sweep_item :
    (now : ℕ) (a : StagingItem) (n : SweepResult) → legal (some a) (sweep_item now a n).0 ≡ true
unfolding sweep_item legal legal_change is_valid_transition
legal-sweep_item now a n = ground arith

get-sweep_loop-none :
    (j : String) (now : ℕ) (m : JsMap StagingItem) (n : SweepResult)
    → JsMap.get j m ≡ none
    → JsMap.get j (sweep_loop now m n).0 ≡ none
unfolding sweep_loop JsMap.get
get-sweep_loop-none j now [] n h = refl
get-sweep_loop-none j now ((id, a) ∷ m) n h =
    ground (arith, get-sweep_loop-none j now m (sweep_item now a n).1)

pub legal-sweep_loop :
    (j : String) (now : ℕ) (m : JsMap StagingItem) (n : SweepResult)
    → IsKeyed m
    → legal (JsMap.get j m) (JsMap.get j (sweep_loop now m n).0) ≡ true
unfolding sweep_loop JsMap.get JsMap.has
legal-sweep_loop j now [] n k = unfold legal in refl
legal-sweep_loop j now ((id, a) ∷ m) n k =
    let n' = (sweep_item now a n).1 in
    ground (
      arith,
      eq_iff id j,
      legal-sweep_item now a n,
      get-sweep_loop-none j now m n',
      legal-sweep_loop j now m n' k.1,
      legal-none a,
    )

pub IsKeyed-sweep_loop :
    (now : ℕ) (m : JsMap StagingItem) (n : SweepResult) → IsKeyed m → IsKeyed (sweep_loop now m n).0
unfolding sweep_loop JsMap.has
IsKeyed-sweep_loop now [] n k = tt
IsKeyed-sweep_loop now ((id, a) ∷ m) n k =
    let n' = (sweep_item now a n).1 in
    ground (arith, get-sweep_loop-none id now m n', IsKeyed-sweep_loop now m n' k.1)

has-claim_loop :
    (j : String) (left now lease : ℕ) (m : JsMap StagingItem)
    → JsMap.has j (claim_loop left now lease m).0 ≡ JsMap.has j m
unfolding claim_loop JsMap.has
has-claim_loop j zero now lease m = refl
has-claim_loop j (suc left) now lease [] = refl
has-claim_loop j (suc left) now lease ((id, a) ∷ m) =
    ground (arith, has-claim_loop j (suc left) now lease m, has-claim_loop j left now lease m)

pub IsKeyed-claim_loop :
    (left now lease : ℕ) (m : JsMap StagingItem)
    → IsKeyed m
    → IsKeyed (claim_loop left now lease m).0
unfolding claim_loop
IsKeyed-claim_loop zero now lease m k = k
IsKeyed-claim_loop (suc left) now lease [] k = k
IsKeyed-claim_loop (suc left) now lease ((id, a) ∷ m) k = ground (
  arith,
  has-claim_loop id (suc left) now lease m,
  has-claim_loop id left now lease m,
  IsKeyed-claim_loop (suc left) now lease m k.1,
  IsKeyed-claim_loop left now lease m k.1,
)

pub items-drain_calls :
    (persona : String) (ts : List StagingItem) (b : Inbox)
    → (drain_calls persona ts b).items ≡ b.items
unfolding drain_calls
items-drain_calls persona [] b = refl
items-drain_calls persona (t ∷ ts) b =
    items-drain_calls persona ts (drain_item persona t b) ∙ items-drain_item persona t b
  where
    items-drain_item :
        (persona : String) (t : StagingItem) (b : Inbox) → (drain_item persona t b).items ≡ b.items
    items-drain_item persona t b = unfold drain_item in ground arith

pub legal-drain_status :
    (persona : String) (a : StagingItem) → legal (some a) (some (drain_status persona a)) ≡ true
unfolding drain_status legal legal_change is_valid_transition
legal-drain_status persona a = ground arith
