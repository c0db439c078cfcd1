-- ===== src/Pairing/Encoder.antt =====
-- packages/core/src/pairing/crockford.ts: what the encoder writes, as the decoder reads it.
use mathlib.Core.Logic.{dif_pos, dif_neg}
use mathlib.Core.WellFounded.{Acc}
use native.Mathlib.Decide.{dec_lt}
use native.Mathlib.Bridge.{le_prop}
use dina_mobile.Prelude.{
  lt_wf, ℕ, zero, suc, ◌+◌, ◌*◌, ◌/◌, ◌%◌, ◌^◌, ◌<◌, ◌≤◌, ◌≡◌, refl, ◌∙◌, ap, sym, subst, List, [],
  ◌∷◌, map, arith, length, ok, All, All-map,
}
use dina_mobile.Pairing.Crockford.{
  digit_char, crockford_index, encode_loop, encode_crockford, canonicalize_chars, ascii_upper,
  decode_loop, decode_canonical, canonicalize_crockford, decode_crockford, shift_shrinks,
}
use dina_mobile.Pairing.Symbols.{
  IsUpperCase, IsSymbol, crockford_index-digit_char, digit_char-IsSymbol, zero_IsSymbol,
}

-- One round of the encoder, and its end.
encode_loop_more :
    (x : ℕ) (w : Acc ◌<◌ x) (out : List ℕ)
    → 0 < x
    → (w' : Acc ◌<◌ (x / 32)) × (encode_loop x w out
        ≡ encode_loop (x / 32) w' (digit_char (x % 32) ∷ out))
unfolding encode_loop
encode_loop_more x (Acc.intro _ smaller) out p =
    (smaller _ (shift_shrinks x p), dif_pos (dec_lt 0 x) le_prop p _ _)

encode_loop_end : (x : ℕ) (w : Acc ◌<◌ x) (out : List ℕ) → x ≡ 0 → encode_loop x w out ≡ out
unfolding encode_loop
encode_loop_end x (Acc.intro _ smaller) out e = dif_neg (dec_lt 0 x) (λ p. omega arith) _ _

-- The rule for the encoder's loop: what each round keeps holds at the end.
encode_loop_inv {ℓ} :
    (P : List ℕ → ℕ → Type ℓ)
    (step : (x : ℕ) (out : List ℕ) → 0 < x → P out x → P (digit_char (x % 32) ∷ out) (x / 32))
    (x : ℕ) (w : Acc ◌<◌ x) (out : List ℕ)
    → P out x
    → P (encode_loop x w out) 0
unfolding encode_loop
encode_loop_inv P step x (Acc.intro _ smaller) out h = elim (dec_lt 0 x) [
  | yes p ↦
      subst (λ r. P r 0) (sym (dif_pos (dec_lt 0 x) le_prop p _ _))
        (encode_loop_inv P step (x / 32) (smaller _ (shift_shrinks x p)) (digit_char (x % 32) ∷ out)
          (step x out p h))
  | no p ↦ subst (λ r. P r 0) (sym (dif_neg (dec_lt 0 x) p _ _)) (subst (P out) (omega arith) h)
]

pub encode_loop-IsSymbol : (n : ℕ) (w : Acc ◌<◌ n) → All IsSymbol (encode_loop n w [])
encode_loop-IsSymbol n w =
    encode_loop_inv (λ out x. All IsSymbol out)
      (λ x out p h. (digit_char-IsSymbol (x % 32) (omega arith), h)) n w [] tt

decode_loop-digit :
    (x : ℕ) (out : List ℕ) → decode_loop (digit_char (x % 32) ∷ out) (x / 32) ≡ decode_loop out x
unfolding decode_loop
decode_loop-digit x out =
    let e : x / 32 * 32 + x % 32 ≡ x = omega arith in
    rw (crockford_index-digit_char (x % 32) (omega arith), decode_loop) (ap (decode_loop out) e)

pub decode_loop-encode_loop : (n : ℕ) (w : Acc ◌<◌ n) → decode_loop (encode_loop n w []) 0 ≡ ok n
unfolding decode_loop
decode_loop-encode_loop n w =
    encode_loop_inv (λ out x. decode_loop out x ≡ ok n) (λ x out p h. decode_loop-digit x out ∙ h) n
      w [] refl

-- What is left to encode fits in the characters that are left of `k`.
abbrev HasRoom : ℕ → List ℕ → ℕ → Type 0
HasRoom k out x = (j : ℕ) × (length out + j ≡ k) × (x < 32 ^ j)

HasRoom-digit :
    (k x : ℕ) (out : List ℕ)
    → 0 < x
    → HasRoom k out x
    → HasRoom k (digit_char (x % 32) ∷ out) (x / 32)
HasRoom-digit k x out p (zero, e, lt) = absurd (omega arith)
HasRoom-digit k x out p (suc j, e, lt) = (j, omega arith, omega arith)

pub length-encode_loop-le : (k n : ℕ) (w : Acc ◌<◌ n) → n < 32 ^ k → length (encode_loop n w []) ≤ k
length-encode_loop-le k n w h =
    let (j, e, lt) = encode_loop_inv (HasRoom k) (HasRoom-digit k) n w [] (k, omega arith, h) in
    omega arith

length-encode_loop-pos : (n : ℕ) (w : Acc ◌<◌ n) → 0 < n → 0 < length (encode_loop n w [])
length-encode_loop-pos n w h =
    let r : 0 < length (encode_loop n w []) + 0 =
      encode_loop_inv (λ out x. 0 < length out + x) (λ x out p q. omega arith) n w []
        (omega arith) in
    omega arith

canonicalize_chars-IsSymbol : (s : List ℕ) → All IsSymbol s → canonicalize_chars s ≡ s
unfolding canonicalize_chars
canonicalize_chars-IsSymbol [] h = refl
canonicalize_chars-IsSymbol (c ∷ cs) h =
    h.0.kept cs ∙ ap (λ r. c ∷ r) (canonicalize_chars-IsSymbol cs h.1)

map-ascii_upper : (s : List ℕ) → All IsSymbol s → map ascii_upper s ≡ s
map-ascii_upper [] h = refl
map-ascii_upper (c ∷ cs) h = ground (arith, h.0.upper, map-ascii_upper cs h.1)

ascii_of : (s : List ℕ) → All IsSymbol s → All (λ c. c < 128) s
ascii_of s h = All-map IsSymbol (λ c. c < 128) (λ c p. p.ascii) s h

-- The decoder reads the characters of the alphabet as they stand.
pub decode_crockford-IsSymbol :
    (upper : List ℕ → List ℕ) (u : IsUpperCase upper) (s : List ℕ)
    → All IsSymbol s
    → decode_crockford upper s ≡ decode_canonical s
unfolding decode_crockford canonicalize_crockford
decode_crockford-IsSymbol upper u s h =
    ap (λ t. decode_canonical (canonicalize_chars t)) (u s (ascii_of s h) ∙ map-ascii_upper s h)
    ∙ ap decode_canonical (canonicalize_chars-IsSymbol s h)

pub decode_canonical-pos :
    (s : List ℕ) (n : ℕ) → 0 < length s → decode_loop s 0 ≡ ok n → decode_canonical s ≡ ok n
unfolding decode_canonical
decode_canonical-pos [] n h e = absurd (omega arith)
decode_canonical-pos (c ∷ cs) n h e = e

-- What the encoder writes, in one statement.
pub record IsCode (s : List ℕ) (n : ℕ) : Type 0 where
  pub symbols : All IsSymbol s
  pub nonempty : 0 < length s
  pub value : decode_loop s 0 ≡ ok n

IsCode-zero : IsCode (b'0' ∷ []) 0
unfolding decode_loop crockford_index
IsCode-zero = record { symbols = (zero_IsSymbol, tt); nonempty = omega arith; value = refl }

pub encode_crockford_pos : (n : ℕ) → 0 < n → encode_crockford n ≡ encode_loop n (lt_wf.apply n) []
unfolding encode_crockford
encode_crockford_pos n h = ground arith

pub encode_crockford-IsCode : (n : ℕ) → IsCode (encode_crockford n) n
unfolding encode_crockford
encode_crockford-IsCode zero = IsCode-zero
encode_crockford-IsCode (suc n) =
    let w = lt_wf.apply (suc n) in
    subst (λ s. IsCode s (suc n)) (sym (encode_crockford_pos (suc n) (omega arith)))
      record {
        symbols = encode_loop-IsSymbol (suc n) w;
        nonempty = length-encode_loop-pos (suc n) w (omega arith);
        value = decode_loop-encode_loop (suc n) w;
      }

pub decode-IsCode :
    (upper : List ℕ → List ℕ) (u : IsUpperCase upper) (s : List ℕ) (n : ℕ)
    → IsCode s n
    → decode_crockford upper s ≡ ok n
decode-IsCode upper u s n h =
    decode_crockford-IsSymbol upper u s h.symbols ∙ decode_canonical-pos s n h.nonempty h.value
