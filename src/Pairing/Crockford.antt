-- ===== src/Pairing/Crockford.antt =====
-- packages/core/src/pairing/crockford.ts: Crockford Base32. A text is the list of its code points. A
-- `bigint` that is not negative is a number: both callers make theirs from bytes. `n << 5n` is
-- `n * 32`, and `| digit` adds a digit below 32 to it.
use mathlib.Core.Logic.{dite}
use mathlib.Core.WellFounded.{Acc}
use native.Mathlib.Decide.{dec_lt}
use Prim.Native.Char.{code}
use dina_mobile.Prelude.{
  lt_wf, ℕ, zero, suc, ◌+◌, ◌-◌, ◌*◌, ◌/◌, ◌%◌, ◌<◌, String, Bool, ◌||◌, Option, none, some, List,
  [], ◌∷◌, ◌++◌, arith, nat_eq, ltb, leb, ◌&&◌, if◌then◌else◌, length, Result, ok, err, or_default,
}

abbrev pub codes : String → List ℕ
codes String.[] = []
codes (String.◌∷◌ c s) = code c ∷ codes s

abbrev pub crockford_alphabet : List ℕ
crockford_alphabet = codes "0123456789ABCDEFGHJKMNPQRSTVWXYZ"

-- `text[i]`
unfoldable pub char_at : List ℕ → ℕ → Option ℕ
char_at [] i = none
char_at (c ∷ cs) zero = some c
char_at (c ∷ cs) (suc i) = char_at cs i

-- `CROCKFORD_INDEX.get(ch)`: the index of a character, counted from `i`.
unfoldable pub index_from : ℕ → List ℕ → ℕ → Option ℕ
index_from i [] ch = none
index_from i (c ∷ cs) ch = if nat_eq c ch then some i else index_from (i + 1) cs ch

unfoldable pub crockford_index : ℕ → Option ℕ
unfolding index_from
crockford_index ch = index_from 0 crockford_alphabet ch

-- The character of a digit below 32.
unfoldable pub digit_char : ℕ → ℕ
unfolding char_at
digit_char d = or_default (char_at crockford_alphabet d) 0

pub shift_shrinks : (x : ℕ) → 0 < x → x / 32 < x
shift_shrinks x h = omega arith

-- `while (x > 0n)`: the digits from the lowest, each put before `out`.
unfoldable pub encode_loop : (x : ℕ) → Acc ◌<◌ x → List ℕ → List ℕ
encode_loop x (Acc.intro _ smaller) out =
    dite (dec_lt 0 x)
      (λ more. encode_loop (x / 32) (smaller _ (shift_shrinks x more)) (digit_char (x % 32) ∷ out))
      (λ _. out)

unfoldable pub encode_crockford : ℕ → List ℕ
encode_crockford n = if nat_eq n 0 then b'0' ∷ [] else encode_loop n (lt_wf.apply n) []

-- Whether canonicalisation drops the character.
unfoldable pub is_separator : ℕ → Bool
is_separator ch = nat_eq ch 32 || nat_eq ch 9 || nat_eq ch 10 || nat_eq ch 13 || nat_eq ch b'-'

unfoldable pub canonicalize_chars : List ℕ → List ℕ
unfolding is_separator
canonicalize_chars [] = []
canonicalize_chars (ch ∷ cs) =
    let rest = canonicalize_chars cs in
    if is_separator ch
    then rest
    else if nat_eq ch b'I' || nat_eq ch b'L'
    then b'1' ∷ rest
    else if nat_eq ch b'O'
    then b'0' ∷ rest
    else ch ∷ rest

-- What `toUpperCase` does to an ASCII character.
unfoldable pub ascii_upper : ℕ → ℕ
ascii_upper c = if leb b'a' c && leb c b'z' then c - 32 else c

pub data CodeError : Type 0 where
  empty_input : CodeError
  unexpected_character : ℕ → CodeError
  wrong_byte_count : ℕ → CodeError

unfoldable pub decode_loop : List ℕ → ℕ → Result CodeError ℕ
decode_loop [] n = ok n
decode_loop (ch ∷ cs) n = elim (crockford_index ch) [
  | none ↦ err (unexpected_character ch)
  | some digit ↦ decode_loop cs (n * 32 + digit)
]

unfoldable pub decode_canonical : List ℕ → Result CodeError ℕ
decode_canonical [] = err empty_input
decode_canonical (ch ∷ cs) = decode_loop (ch ∷ cs) 0

-- `upper` is `String.prototype.toUpperCase`.
module _ (upper : List ℕ → List ℕ) where
  unfoldable pub canonicalize_crockford : List ℕ → List ℕ
  canonicalize_crockford raw = canonicalize_chars (upper raw)

  unfoldable pub decode_crockford : List ℕ → Result CodeError ℕ
  decode_crockford s = decode_canonical (canonicalize_crockford s)

abbrev pub pairing_code_length : ℕ
pairing_code_length = 8

abbrev pub pairing_code_bytes : ℕ
pairing_code_bytes = 5

-- `'0'.repeat(n)`
unfoldable pub zeros : ℕ → List ℕ
zeros zero = []
zeros (suc n) = b'0' ∷ zeros n

-- The bytes as one number, from the accumulator `n`.
unfoldable pub pack_bytes : List ℕ → ℕ → ℕ
pack_bytes [] n = n
pack_bytes (b ∷ bs) n = pack_bytes bs (n * 256 + b)

unfoldable pub pad_code : List ℕ → List ℕ
unfolding zeros
pad_code code =
    if ltb (length code) pairing_code_length
    then zeros (pairing_code_length - length code) ++ code
    else code

unfoldable pub generate_pairing_code : List ℕ → Result CodeError (List ℕ)
generate_pairing_code bytes =
    if nat_eq (length bytes) pairing_code_bytes
    then ok (pad_code (encode_crockford (pack_bytes bytes 0)))
    else err (wrong_byte_count (length bytes))
