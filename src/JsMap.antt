-- ===== src/JsMap.antt =====
-- The `Map<string, V>` of JavaScript: keys in the order of their first insertion. `set` on a key
-- that is there changes the value in its place, and a loop over the map sees that order.
use dina_mobile.Prelude.{
  ℕ, ◌+◌, ◌-◌, ◌≤◌, String, ◌≡◌, refl, Bool, false, Option, none, some, List, [], ◌∷◌, arith, ◌==◌,
  eq_iff, eq_refl, All, Bool-cases, subst, inl, inr, true, if◌then◌else◌, is_some, length,
}

abbrev pub JsMap {ℓ} : Type ℓ → Type ℓ
JsMap V = List (String × V)

module _ {ℓ} {V : Type ℓ} where
  unfoldable pub get : String → JsMap V → Option V
  get k [] = none
  get k ((j, v) ∷ m) = if j == k then some v else get k m

  unfoldable pub has : String → JsMap V → Bool
  unfolding get
  has k m = is_some (get k m)

  unfoldable pub set : String → V → JsMap V → JsMap V
  set k v [] = (k, v) ∷ []
  set k v ((j, w) ∷ m) = if j == k then (j, v) ∷ m else (j, w) ∷ set k v m

  unfoldable pub delete : String → JsMap V → JsMap V
  delete k [] = []
  delete k ((j, w) ∷ m) = let rest = delete k m in if j == k then rest else (j, w) ∷ rest

  -- A loop that deletes the entries which fail `p`.
  unfoldable pub retain : (V → Bool) → JsMap V → JsMap V
  retain p [] = []
  retain p ((j, w) ∷ m) = let rest = retain p m in if p w then (j, w) ∷ rest else rest

  unfoldable pub values : JsMap V → List V
  values [] = []
  values ((j, w) ∷ m) = w ∷ values m

  -- A loop that changes values in place.
  unfoldable pub update_all : (V → V) → JsMap V → JsMap V
  update_all f [] = []
  update_all f ((j, w) ∷ m) = (j, f w) ∷ update_all f m

  -- `map.keys().next().value`, deleted.
  unfoldable pub drop_oldest : JsMap V → JsMap V
  drop_oldest [] = []
  drop_oldest (e ∷ m) = m

  abbrev pub size : JsMap V → ℕ
  size m = length m

  -- No key stands twice.
  abbrev pub IsKeyed : JsMap V → Type 0
  IsKeyed [] = Unit
  IsKeyed ((j, w) ∷ m) = (has j m ≡ false) × IsKeyed m

  pub get-set :
      (k j : String) (v : V) (m : JsMap V)
      → get j (set k v m) ≡ (if k == j then some v else get j m)
  unfolding get set
  get-set k j v [] = refl
  get-set k j v ((i, w) ∷ m) = ground (arith, eq_iff k j, eq_iff i k, eq_iff i j, get-set k j v m)

  pub get-set_self : (k : String) (v : V) (m : JsMap V) → get k (set k v m) ≡ some v
  get-set_self k v m = simp (get-set, eq_refl)

  pub get-delete :
      (k j : String) (m : JsMap V) → get j (delete k m) ≡ (if k == j then none else get j m)
  unfolding get delete
  get-delete k j [] = ground arith
  get-delete k j ((i, w) ∷ m) = ground (arith, eq_iff k j, eq_iff i k, eq_iff i j, get-delete k j m)

  pub size-set :
      (k : String) (v : V) (m : JsMap V)
      → size (set k v m) ≡ (if has k m then size m else size m + 1)
  unfolding set has
  size-set k v [] = omega arith
  size-set k v ((i, w) ∷ m) = ground (arith, size-set k v m)

  pub size-retain-le : (p : V → Bool) (m : JsMap V) → size (retain p m) ≤ size m
  unfolding retain
  size-retain-le p [] = omega arith
  size-retain-le p ((i, w) ∷ m) = ground (arith, size-retain-le p m)

  pub size-delete-le : (k : String) (m : JsMap V) → size (delete k m) ≤ size m
  unfolding delete
  size-delete-le k [] = omega arith
  size-delete-le k ((i, w) ∷ m) = ground (arith, size-delete-le k m)

module _ {ℓ} {V : Type ℓ} where
  -- What a lookup finds after the loop that deletes the entries which fail `p`.
  abbrev pub kept : (V → Bool) → Option V → Option V
  kept p none = none
  kept p (some v) = if p v then some v else none

  abbrev pub mapped : (V → V) → Option V → Option V
  mapped f none = none
  mapped f (some v) = some (f v)

  pub get-retain-none :
      (p : V → Bool) (j : String) (m : JsMap V) → get j m ≡ none → get j (retain p m) ≡ none
  unfolding get retain
  get-retain-none p j [] h = refl
  get-retain-none p j ((i, w) ∷ m) h = ground (arith, get-retain-none p j m)

  pub get-retain :
      (p : V → Bool) (j : String) (m : JsMap V) → IsKeyed m → get j (retain p m) ≡ kept p (get j m)
  unfolding get retain has
  get-retain p j [] h = refl
  get-retain p j ((i, w) ∷ m) h =
      ground (arith, eq_iff i j, get-retain p j m h.1, get-retain-none p j m)

  pub get-update_all :
      (f : V → V) (j : String) (m : JsMap V) → get j (update_all f m) ≡ mapped f (get j m)
  unfolding get update_all
  get-update_all f j [] = refl
  get-update_all f j ((i, w) ∷ m) = ground (arith, get-update_all f j m)

  pub IsKeyed-set : (k : String) (v : V) (m : JsMap V) → IsKeyed m → IsKeyed (set k v m)
  unfolding set has get
  IsKeyed-set k v [] h = ground arith
  IsKeyed-set k v ((i, w) ∷ m) h =
      ground (arith, eq_iff i k, eq_iff k i, IsKeyed-set k v m h.1, get-set k i v m)

  pub IsKeyed-delete : (k : String) (m : JsMap V) → IsKeyed m → IsKeyed (delete k m)
  unfolding delete has get
  IsKeyed-delete k [] h = tt
  IsKeyed-delete k ((i, w) ∷ m) h = ground (arith, IsKeyed-delete k m h.1, get-delete k i m)

  pub IsKeyed-retain : (p : V → Bool) (m : JsMap V) → IsKeyed m → IsKeyed (retain p m)
  unfolding retain has
  IsKeyed-retain p [] h = tt
  IsKeyed-retain p ((i, w) ∷ m) h = ground (arith, IsKeyed-retain p m h.1, get-retain-none p i m)

  pub IsKeyed-update_all : (f : V → V) (m : JsMap V) → IsKeyed m → IsKeyed (update_all f m)
  unfolding update_all has
  IsKeyed-update_all f [] h = tt
  IsKeyed-update_all f ((i, w) ∷ m) h =
      ground (arith, IsKeyed-update_all f m h.1, get-update_all f i m)

  pub size-drop_oldest : (m : JsMap V) → size (drop_oldest m) ≡ size m - 1
  unfolding drop_oldest
  size-drop_oldest [] = omega arith
  size-drop_oldest (e ∷ m) = omega arith

  pub IsKeyed-drop_oldest : (m : JsMap V) → IsKeyed m → IsKeyed (drop_oldest m)
  unfolding drop_oldest
  IsKeyed-drop_oldest [] h = tt
  IsKeyed-drop_oldest (e ∷ m) h = h.1

  -- Dropping the oldest entry loses one key at most, and changes no other entry.
  pub get-drop_oldest :
      (j : String) {v : V} (m : JsMap V)
      → IsKeyed m
      → get j (drop_oldest m) ≡ some v
      → get j m ≡ some v
  unfolding drop_oldest get has
  get-drop_oldest j [] h e = e
  get-drop_oldest j ((i, w) ∷ m) h e = ground (arith, eq_iff i j)

-- What holds of every value.
module _ {ℓ κ} {V : Type ℓ} (P : V → Type κ) where
  pub All-set :
      (k : String) (v : V) (m : JsMap V) → P v → All P (values m) → All P (values (set k v m))
  unfolding set values
  All-set k v [] h hs = (h, tt)
  All-set k v ((i, w) ∷ m) h hs =
      elim (i == k) as (λ b. All P (values (if b then (i, v) ∷ m else (i, w) ∷ set k v m))) [
        | true ↦ (h, hs.1)
        | false ↦ (hs.0, All-set k v m h hs.1)
      ]

  pub All-update_all :
      (f : V → V) (m : JsMap V)
      → ((v : V) → P v → P (f v))
      → All P (values m)
      → All P (values (update_all f m))
  unfolding update_all values
  All-update_all f [] h hs = tt
  All-update_all f ((i, w) ∷ m) h hs = (h w hs.0, All-update_all f m h hs.1)

  pub All-get : (k : String) (v : V) (m : JsMap V) → All P (values m) → get k m ≡ some v → P v
  unfolding get values
  All-get k v [] hs e = absurd cc
  All-get k v ((i, w) ∷ m) hs e = elim (Bool-cases (i == k)) [
    | inl t ↦ subst P (ground arith) hs.0
    | inr f ↦ All-get k v m hs.1 (ground arith)
  ]
