-- ===== src/JsSet.antt =====
-- The `Set<string>` of JavaScript: its members in the order of their first insertion.
use dina_mobile.Prelude.{
  String, Bool, false, not, List, [], ◌∷◌, ◌++◌, ◌≡◌, arith, ◌==◌, ◌||◌, ◌&&◌, eq_iff,
  if◌then◌else◌,
}

unfoldable pub has : String → List String → Bool
has k [] = false
has k (x ∷ xs) = x == k || has k xs

unfoldable pub add : String → List String → List String
unfolding has
add k xs = if has k xs then xs else xs ++ k ∷ []

unfoldable pub delete : String → List String → List String
delete k [] = []
delete k (x ∷ xs) = let rest = delete k xs in if x == k then rest else x ∷ rest

has-append : (j k : String) (xs : List String) → has j (xs ++ k ∷ []) ≡ (has j xs || k == j)
unfolding has
has-append j k [] = ground arith
has-append j k (x ∷ xs) = ground (arith, has-append j k xs)

pub has-add : (k j : String) (xs : List String) → has j (add k xs) ≡ (k == j || has j xs)
unfolding add
has-add k j xs = ground (arith, has-append j k xs, eq_iff k j)

pub has-delete :
    (k j : String) (xs : List String) → has j (delete k xs) ≡ (not (k == j) && has j xs)
unfolding has delete
has-delete k j [] = ground arith
has-delete k j (x ∷ xs) = ground (arith, has-delete k j xs, eq_iff x k, eq_iff x j, eq_iff k j)
