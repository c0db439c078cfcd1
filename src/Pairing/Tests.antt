-- ===== src/Pairing/Tests.antt =====
-- Tests of packages/core/src/pairing, and its theorems at concrete inputs.
use dina_mobile.Prelude.{lt_wf, decimal}
use dina_mobile.JsMap.{has}
use dina_mobile.JsMap.{retain}
use dina_mobile.JsMap.{values}
use dina_mobile.Prelude.{ℕ, ◌≡◌, refl, List, [], ◌∷◌, map, arith, ok}
use dina_mobile.Pairing.Crockford.{
  codes, ascii_upper, encode_crockford, decode_crockford, decode_canonical, generate_pairing_code,
  pack_bytes, is_separator, encode_loop, digit_char, canonicalize_crockford, canonicalize_chars,
  decode_loop, crockford_index, pad_code,
}
use native.Mathlib.Decide.{dec_lt}
use dina_mobile.Pairing.Symbols.{IsUpperCase, IsSymbol, digit_char-IsSymbol}
use dina_mobile.Pairing.Codes.{decode_crockford-encode_crockford, generate_pairing_code_injective}
use dina_mobile.Pairing.Typos.{Typed}
use dina_mobile.Prelude.{String, false, Option, none, some}
use dina_mobile.Pairing.Ceremony.{Ceremony, generate_code}

-- An upper-casing of ASCII text.
abbrev upper : List ℕ → List ℕ
upper = map ascii_upper

upper-IsUpperCase : IsUpperCase upper
upper-IsUpperCase s h = refl

encode_1234 : encode_crockford 1234 ≡ codes "16J"
unfolding encode_crockford encode_loop lt_wf dec_lt digit_char
encode_1234 = refl

decode_typed : decode_crockford upper (codes "il-o k") ≡ ok 33811
unfolding decode_crockford decode_canonical canonicalize_crockford canonicalize_chars ascii_upper
    decode_loop crockford_index
decode_typed = refl

generate_test : generate_pairing_code (0 ∷ 0 ∷ 0 ∷ 4 ∷ 210 ∷ []) ≡ ok (codes "0000016J")
unfolding generate_pairing_code pad_code encode_crockford pack_bytes encode_loop lt_wf dec_lt
    digit_char
generate_test = refl

decode_crockford-encode_crockford_example : decode_crockford upper (encode_crockford 1234) ≡ ok 1234
decode_crockford-encode_crockford_example =
    decode_crockford-encode_crockford upper upper-IsUpperCase 1234

abbrev some_bytes : List ℕ
some_bytes = 1 ∷ 2 ∷ 3 ∷ 4 ∷ 255 ∷ []

generate_pairing_code_injective_example : some_bytes ≡ some_bytes
generate_pairing_code_injective_example =
    generate_pairing_code_injective some_bytes some_bytes (omega arith) (omega arith) (omega arith)
      (omega arith) refl

a-IsSymbol : IsSymbol 65
unfolding digit_char
a-IsSymbol = digit_char-IsSymbol 10 (omega arith)

typed_code : Typed (codes "10A") (codes "l-oa")
unfolding is_separator
typed_code = Typed.one 49 108 refl refl (
    Typed.separator 45 refl (
      Typed.zero 48 111 refl refl
        (Typed.lower 65 97 a-IsSymbol (omega arith) (omega arith) refl Typed.end)))

-- A key has the DID of its text.
abbrev did_of : String → Option String
did_of key = some key

abbrev no_codes : Ceremony
no_codes = record {
  pending_codes = [];
  node_did = some "did:plc:n";
  registry = record { devices = []; key_index = []; did_index = [] };
  callers = record { service_dids = []; device_dids = []; role_resolver = none };
}

-- One code is open until 310, another one was open until 9.
abbrev one_code : Ceremony
one_code = record no_codes {
  pending_codes =
      ("100007", record { code = "100007"; expires_at = 310; used = false; failed_attempts = 0 })
      ∷ ("100008", record { code = "100008"; expires_at = 9; used = false; failed_attempts = 0 })
      ∷ [];
}

generate_code_test : (generate_code (7 ∷ []) 10 no_codes).0 ≡ ok "100007"
unfolding generate_code values retain has decimal
generate_code_test = refl
