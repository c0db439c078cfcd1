-- ===== src/Pairing/Codes.antt =====
-- packages/core/src/pairing/crockford.ts: what a code that was generated decodes to.
use dina_mobile.Prelude.{
  lt_wf, ℕ, zero, suc, ◌+◌, ◌-◌, ◌*◌, ◌^◌, ◌<◌, ◌≤◌, ◌≡◌, refl, ◌∙◌, ap, sym, subst, List, [], ◌∷◌,
  ◌++◌, arith, ltb, length, length-append, Result, ok, All, Bool-cases, inl, inr,
}
use dina_mobile.Pairing.Crockford.{
  crockford_index, encode_crockford, decode_loop, decode_crockford, zeros, pack_bytes, pad_code,
  generate_pairing_code, CodeError,
}
use dina_mobile.Pairing.Symbols.{IsUpperCase, zero_IsSymbol}
use dina_mobile.Pairing.Encoder.{
  length-encode_loop-le, IsCode, encode_crockford_pos, encode_crockford-IsCode, decode-IsCode,
}

ok_injective : {A : Type 0} {a b : A} → ◌≡◌ {A = Result CodeError A} (ok a) (ok b) → a ≡ b
ok_injective e = cc

-- Where `upper` is an upper-casing that on ASCII text changes the letters a to z only, decoding
-- the encoding of any number gives that number.
pub decode_crockford-encode_crockford :
    (upper : List ℕ → List ℕ) (u : IsUpperCase upper) (n : ℕ)
    → decode_crockford upper (encode_crockford n) ≡ ok n
decode_crockford-encode_crockford upper u n =
    decode-IsCode upper u (encode_crockford n) n (encode_crockford-IsCode n)

length-encode_crockford-le : (k n : ℕ) → n < 32 ^ suc k → length (encode_crockford n) ≤ suc k
unfolding encode_crockford
length-encode_crockford-le k zero h = omega arith
length-encode_crockford-le k (suc n) h =
    rw (encode_crockford_pos (suc n) (omega arith))
      (length-encode_loop-le (suc k) (suc n) (lt_wf.apply (suc n)) h)

IsCode-zeros : (k : ℕ) (s : List ℕ) (n : ℕ) → IsCode s n → IsCode (zeros k ++ s) n
unfolding zeros decode_loop crockford_index
IsCode-zeros zero s n h = h
IsCode-zeros (suc k) s n h =
    let r = IsCode-zeros k s n h in
    record { symbols = (zero_IsSymbol, r.symbols); nonempty = omega arith; value = r.value }

length-zeros : (k : ℕ) → length (zeros k) ≡ k
unfolding zeros
length-zeros zero = refl
length-zeros (suc k) = omega (arith, length-zeros k)

length-pad_code : (s : List ℕ) → length s ≤ 8 → length (pad_code s) ≡ 8
unfolding pad_code
length-pad_code s h =
    ground (arith, length-append (zeros (8 - length s)) s, length-zeros (8 - length s))

pad_code-IsCode : (s : List ℕ) (n : ℕ) → IsCode s n → IsCode (pad_code s) n
unfolding pad_code
pad_code-IsCode s n h = elim (Bool-cases (ltb (length s) 8)) [
  | inl short ↦ rw (short, pad_code) (IsCode-zeros (8 - length s) s n h)
  | inr long ↦ rw (long, pad_code) h
]

pack_bytes-lt :
    (k j : ℕ) (bs : List ℕ) (n : ℕ)
    → k + length bs ≡ j
    → All (λ b. b < 256) bs
    → n < 256 ^ k
    → pack_bytes bs n < 256 ^ j
unfolding pack_bytes
pack_bytes-lt k j [] n e h lt = let e' : k ≡ j = omega arith in subst (λ i. n < 256 ^ i) e' lt
pack_bytes-lt k j (b ∷ bs) n e h lt =
    let (byte, bytes) = h in
    pack_bytes-lt (suc k) j bs (n * 256 + b) (omega arith) bytes (omega arith)

-- The code that `n` is written as.
abbrev code_of : List ℕ → List ℕ
code_of bytes = pad_code (encode_crockford (pack_bytes bytes 0))

generate_five :
    (bytes : List ℕ) → length bytes ≡ 5 → generate_pairing_code bytes ≡ ok (code_of bytes)
unfolding generate_pairing_code
generate_five bytes five = ground arith

code_of-IsCode : (bytes : List ℕ) → IsCode (code_of bytes) (pack_bytes bytes 0)
code_of-IsCode bytes =
    pad_code-IsCode (encode_crockford (pack_bytes bytes 0)) _ (encode_crockford-IsCode _)

-- For five bytes, and `upper` an upper-casing that on ASCII text changes the letters a to z only,
-- a code is generated; it has 8 characters and decodes to the five bytes read as one number.
pub generate_pairing_code_lem :
    (upper : List ℕ → List ℕ) (u : IsUpperCase upper) (bytes : List ℕ)
    → length bytes ≡ 5
    → All (λ b. b < 256) bytes
    → (code : List ℕ) × (generate_pairing_code bytes ≡ ok code)
      × (length code ≡ 8)
      × (decode_crockford upper code ≡ ok (pack_bytes bytes 0))
generate_pairing_code_lem upper u bytes five h =
    let n = pack_bytes bytes 0 in
    let lt : n < 256 ^ 5 = pack_bytes-lt 0 5 bytes 0 (omega arith) h (omega arith) in
    (
      code_of bytes,
      generate_five bytes five,
      length-pad_code (encode_crockford n) (length-encode_crockford-le 7 n (omega arith)),
      decode-IsCode upper u (code_of bytes) n (code_of-IsCode bytes),
    )

pack_bytes_injective :
    (xs bs : List ℕ) (m n : ℕ)
    → length xs ≡ length bs
    → All (λ b. b < 256) xs
    → All (λ b. b < 256) bs
    → pack_bytes xs m ≡ pack_bytes bs n
    → (m ≡ n) × (xs ≡ bs)
unfolding pack_bytes
pack_bytes_injective [] [] m n l ha hb e = (e, refl)
pack_bytes_injective [] (b ∷ bs) m n l ha hb e = absurd (omega arith)
pack_bytes_injective (a ∷ xs) [] m n l ha hb e = absurd (omega arith)
pack_bytes_injective (a ∷ xs) (b ∷ bs) m n l ha hb e =
    let (top, rest) =
      pack_bytes_injective xs bs (m * 256 + a) (n * 256 + b) (omega arith) ha.1 hb.1 e in
    let x : a < 256 = ha.0 in
    let y : b < 256 = hb.0 in
    let same : a ≡ b = omega arith in (omega arith, ap (λ c. c ∷ xs) same ∙ ap (λ cs. b ∷ cs) rest)

-- Different random bytes give different codes: where five bytes and five bytes give the same
-- outcome, they are the same bytes.
pub generate_pairing_code_injective :
    (xs bs : List ℕ)
    → length xs ≡ 5
    → length bs ≡ 5
    → All (λ b. b < 256) xs
    → All (λ b. b < 256) bs
    → generate_pairing_code xs ≡ generate_pairing_code bs
    → xs ≡ bs
generate_pairing_code_injective xs bs la lb ha hb e =
    let codes_eq = ok_injective (sym (generate_five xs la) ∙ e ∙ generate_five bs lb) in
    let values = ok_injective (
      sym (code_of-IsCode xs).value
      ∙ ap (λ s. decode_loop s 0) codes_eq
      ∙ (code_of-IsCode bs).value) in
    (pack_bytes_injective xs bs 0 0 (omega arith) ha hb values).1
