-- ===== src/Rpc/Evict.antt =====
-- packages/core/src/rpc/idempotency_cache.ts, nonce_replay_cache.ts: the eviction that both write out.
use dina_mobile.Prelude.{
  ℕ, ◌≤◌, String, Bool, some, [], ◌∷◌, ◌≡◌, arith, ltb, length, if◌then◌else◌, Option-cases, eq_iff,
}
use dina_mobile.JsMap
use dina_mobile.JsMap.{JsMap, IsKeyed, IsKeyed-retain, get-retain, size-retain-le}

module _ {ℓ} {V : Type ℓ} where
  -- `while (size > maxEntries)`, the oldest entry is deleted.
  unfoldable pub evict_to : ℕ → JsMap V → JsMap V
  evict_to max_entries [] = []
  evict_to max_entries (e ∷ m) =
      let rest = evict_to max_entries m in if ltb max_entries (length (e ∷ m)) then rest else e ∷ m

  unfoldable pub evict : (V → ℕ) → ℕ → ℕ → JsMap V → JsMap V
  unfolding evict_to
  evict deadline now max_entries m =
      evict_to max_entries (JsMap.retain (λ v. ltb now (deadline v)) m)

  size-evict_to :
      (max_entries : ℕ) (m : JsMap V) → JsMap.size (evict_to max_entries m) ≤ max_entries
  unfolding evict_to
  size-evict_to max_entries [] = omega arith
  size-evict_to max_entries (e ∷ m) = ground (arith, size-evict_to max_entries m)

  IsKeyed-evict_to : (max_entries : ℕ) (m : JsMap V) → IsKeyed m → IsKeyed (evict_to max_entries m)
  unfolding evict_to
  IsKeyed-evict_to max_entries [] h = tt
  IsKeyed-evict_to max_entries ((j, v) ∷ m) h = ground (arith, IsKeyed-evict_to max_entries m h.1)

  get-evict_to :
      (max_entries : ℕ) (j : String) (v : V) (m : JsMap V)
      → IsKeyed m
      → JsMap.get j (evict_to max_entries m) ≡ some v
      → JsMap.get j m ≡ some v
  unfolding evict_to JsMap.get JsMap.has
  get-evict_to max_entries j v [] h e = e
  get-evict_to max_entries j v ((i, w) ∷ m) h e =
      ground (arith, get-evict_to max_entries j v m h.1, eq_iff i j)

  pub size-evict :
      (deadline : V → ℕ) (now max_entries : ℕ) (m : JsMap V)
      → JsMap.size (evict deadline now max_entries m) ≤ max_entries
  unfolding evict
  size-evict deadline now max_entries m =
      size-evict_to max_entries (JsMap.retain (λ v. ltb now (deadline v)) m)

  pub IsKeyed-evict :
      (deadline : V → ℕ) (now max_entries : ℕ) (m : JsMap V)
      → IsKeyed m
      → IsKeyed (evict deadline now max_entries m)
  unfolding evict
  IsKeyed-evict deadline now max_entries m h =
      IsKeyed-evict_to max_entries (JsMap.retain (λ v. ltb now (deadline v)) m)
        (IsKeyed-retain (λ v. ltb now (deadline v)) m h)

  -- Eviction makes no entry up.
  pub get-evict :
      (deadline : V → ℕ) (now max_entries : ℕ) (j : String) (v : V) (m : JsMap V)
      → IsKeyed m
      → JsMap.get j (evict deadline now max_entries m) ≡ some v
      → JsMap.get j m ≡ some v
  unfolding evict
  get-evict deadline now max_entries j v m h e =
      let p : V → Bool = λ w. ltb now (deadline w) in
      ground (
        arith,
        get-evict_to max_entries j v (JsMap.retain p m) (IsKeyed-retain p m h) e,
        get-retain p j m h,
        Option-cases (JsMap.get j m),
      )
