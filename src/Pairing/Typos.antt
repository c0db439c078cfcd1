-- ===== src/Pairing/Typos.antt =====
-- packages/core/src/pairing/crockford.ts: a code as a person types it.
use dina_mobile.Prelude.{
  ℕ, ◌+◌, ◌<◌, ◌≤◌, ◌≡◌, refl, ◌∙◌, ap, sym, true, ◌||◌, List, [], ◌∷◌, map, arith, nat_eq, All,
}
use dina_mobile.Pairing.Crockford.{
  is_separator, canonicalize_chars, ascii_upper, decode_canonical, canonicalize_crockford,
  decode_crockford,
}
use dina_mobile.Pairing.Symbols.{IsSymbol, IsUpperCase}

-- How a code is typed: each character as it stands or in lower case, `I` or `L` for `1` and `O` for
-- `0` in either case, with separators anywhere.
pub data Typed : List ℕ → List ℕ → Type 0 where
  end : Typed [] []
  exact : {cs ts : List ℕ} (c : ℕ) → IsSymbol c → Typed cs ts → Typed (c ∷ cs) (c ∷ ts)
  lower :
      {cs ts : List ℕ} (c t : ℕ)
      → IsSymbol c
      → b'a' ≤ t
      → t ≤ b'z'
      → t ≡ c + 32
      → Typed cs ts
      → Typed (c ∷ cs) (t ∷ ts)
  one :
      {cs ts : List ℕ} (c t : ℕ)
      → c ≡ b'1'
      → (nat_eq t b'I' || nat_eq t b'L' || nat_eq t b'i' || nat_eq t b'l') ≡ true
      → Typed cs ts
      → Typed (c ∷ cs) (t ∷ ts)
  zero :
      {cs ts : List ℕ} (c t : ℕ)
      → c ≡ b'0'
      → (nat_eq t b'O' || nat_eq t b'o') ≡ true
      → Typed cs ts
      → Typed (c ∷ cs) (t ∷ ts)
  separator : {cs ts : List ℕ} (t : ℕ) → is_separator t ≡ true → Typed cs ts → Typed cs (t ∷ ts)

Typed-ascii : {cs ts : List ℕ} → Typed cs ts → All (λ c. c < 128) ts
unfolding is_separator
Typed-ascii end = tt
Typed-ascii (exact c s r) = (s.ascii, Typed-ascii r)
Typed-ascii (lower c t s lo hi e r) = (omega arith, Typed-ascii r)
Typed-ascii (one c t e h r) = (ground arith, Typed-ascii r)
Typed-ascii (zero c t e h r) = (ground arith, Typed-ascii r)
Typed-ascii (separator t h r) = (ground arith, Typed-ascii r)

upper_of : (c t : ℕ) → b'a' ≤ t → t ≤ b'z' → t ≡ c + 32 → ascii_upper t ≡ c
unfolding ascii_upper
upper_of c t lo hi e = ground arith

canonical_one :
    (t : ℕ) (ts : List ℕ)
    → (nat_eq t b'I' || nat_eq t b'L' || nat_eq t b'i' || nat_eq t b'l') ≡ true
    → canonicalize_chars (ascii_upper t ∷ ts) ≡ b'1' ∷ canonicalize_chars ts
unfolding canonicalize_chars ascii_upper is_separator
canonical_one t ts h = ground arith

canonical_zero :
    (t : ℕ) (ts : List ℕ)
    → (nat_eq t b'O' || nat_eq t b'o') ≡ true
    → canonicalize_chars (ascii_upper t ∷ ts) ≡ b'0' ∷ canonicalize_chars ts
unfolding canonicalize_chars ascii_upper is_separator
canonical_zero t ts h = ground arith

canonical_separator :
    (t : ℕ) (ts : List ℕ)
    → is_separator t ≡ true
    → canonicalize_chars (ascii_upper t ∷ ts) ≡ canonicalize_chars ts
unfolding canonicalize_chars ascii_upper is_separator
canonical_separator t ts h = ground arith

Typed-canonical : {cs ts : List ℕ} → Typed cs ts → canonicalize_chars (map ascii_upper ts) ≡ cs
unfolding canonicalize_chars
Typed-canonical end = refl
Typed-canonical (exact {cs} {ts} c s r) =
    ap (λ x. canonicalize_chars (x ∷ map ascii_upper ts)) s.upper
    ∙ s.kept (map ascii_upper ts)
    ∙ ap (λ x. c ∷ x) (Typed-canonical r)
Typed-canonical (lower {cs} {ts} c t s lo hi e r) =
    ap (λ x. canonicalize_chars (x ∷ map ascii_upper ts)) (upper_of c t lo hi e)
    ∙ s.kept (map ascii_upper ts)
    ∙ ap (λ x. c ∷ x) (Typed-canonical r)
Typed-canonical (one {cs} {ts} c t e h r) =
    canonical_one t (map ascii_upper ts) h
    ∙ ap (λ x. b'1' ∷ x) (Typed-canonical r)
    ∙ ap (λ x. x ∷ cs) (sym e)
Typed-canonical (zero {cs} {ts} c t e h r) =
    canonical_zero t (map ascii_upper ts) h
    ∙ ap (λ x. b'0' ∷ x) (Typed-canonical r)
    ∙ ap (λ x. x ∷ cs) (sym e)
Typed-canonical (separator {cs} {ts} t h r) =
    canonical_separator t (map ascii_upper ts) h ∙ Typed-canonical r

-- Where `upper` is an upper-casing that on ASCII text changes the letters a to z only, a code of the
-- alphabet decodes to the same outcome however it is typed: in either case, with the look-alikes of
-- 1 and 0, and with separators.
pub decode_crockford-Typed :
    (upper : List ℕ → List ℕ) (u : IsUpperCase upper) (cs ts : List ℕ)
    → Typed cs ts
    → decode_crockford upper ts ≡ decode_canonical cs
unfolding decode_crockford canonicalize_crockford
decode_crockford-Typed upper u cs ts r =
    ap (λ t. decode_canonical (canonicalize_chars t)) (u ts (Typed-ascii r))
    ∙ ap decode_canonical (Typed-canonical r)
