-- ===== src/Pairing/Symbols.antt =====
-- packages/core/src/pairing/crockford.ts: how the decoder reads the characters of the alphabet.
use dina_mobile.Prelude.{
  holds_for, read_table, ℕ, ◌<◌, ◌≡◌, refl, Bool, true, false, not, ◌&&◌, ◌||◌, none, some, List,
  ◌∷◌, map, arith, nat_eq, ltb, All,
}
use dina_mobile.Pairing.Crockford.{
  digit_char, crockford_index, is_separator, canonicalize_chars, ascii_upper,
}

-- What the code relies on of `toUpperCase`: on ASCII text it changes the letters a to z only.
abbrev pub IsUpperCase : (List ℕ → List ℕ) → Type 0
IsUpperCase upper = (s : List ℕ) → All (λ c. c < 128) s → upper s ≡ map ascii_upper s

-- A character of the alphabet, as every step of the decoder treats it.
pub record IsSymbol (c : ℕ) : Type 0 where
  pub ascii : c < 128
  pub upper : ascii_upper c ≡ c
  pub kept : (cs : List ℕ) → canonicalize_chars (c ∷ cs) ≡ c ∷ canonicalize_chars cs

fits : ℕ → Bool
unfolding is_separator ascii_upper
fits d =
    let c = digit_char d in
    ltb c 128
    && nat_eq (ascii_upper c) c
    && not (is_separator c)
    && not (nat_eq c b'I' || nat_eq c b'L')
    && not (nat_eq c b'O')

reads : ℕ → Bool
reads d = elim (crockford_index (digit_char d)) [ none ↦ false | some e ↦ nat_eq e d ]

fits_table : holds_for fits 32 ≡ true
unfolding fits digit_char
fits_table = refl

reads_table : holds_for reads 32 ≡ true
unfolding reads digit_char crockford_index
reads_table = refl

pub crockford_index-digit_char : (d : ℕ) → d < 32 → crockford_index (digit_char d) ≡ some d
unfolding reads
crockford_index-digit_char d h = ground (arith, read_table reads 32 d reads_table h)

kept_of :
    (c : ℕ) (cs : List ℕ)
    → is_separator c ≡ false
    → (nat_eq c b'I' || nat_eq c b'L') ≡ false
    → nat_eq c b'O' ≡ false
    → canonicalize_chars (c ∷ cs) ≡ c ∷ canonicalize_chars cs
unfolding canonicalize_chars
kept_of c cs h i o = ground arith

pub digit_char-IsSymbol : (d : ℕ) → d < 32 → IsSymbol (digit_char d)
unfolding fits
digit_char-IsSymbol d h =
    let t = read_table fits 32 d fits_table h in
    record {
      ascii = ground arith;
      upper = ground arith;
      kept = λ cs. kept_of (digit_char d) cs (ground arith) (ground arith) (ground arith);
    }

pub zero_IsSymbol : IsSymbol b'0'
unfolding digit_char
zero_IsSymbol = digit_char-IsSymbol 0 (omega arith)
