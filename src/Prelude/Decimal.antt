-- ===== src/Prelude/Decimal.antt =====
-- The decimal text of a number, `String(n)`, and that two numbers do not have the same.
use Prim.Native.Nat.{ℕ, zero, suc, ◌+◌, ◌-◌, ◌*◌, ◌/◌, ◌%◌, ◌<◌}
use Prim.Native.Char.{Char, code}
use Prim.Native.String.{String}
use mathlib.Core.Path.{◌≡◌, refl, sym, ap, ◌∙◌}
use mathlib.Core.Bool.{Bool, true}
use mathlib.Core.Logic.{dite, dif_pos, dif_neg}
use mathlib.Core.WellFounded.{Acc, WellFounded}
use native.Mathlib.Bridge.{le_prop}
use native.Mathlib.Decide.{dec_lt}
use native.Mathlib.Omega.{arith}
use dina_mobile.Prelude.Tests.{nat_eq, if◌then◌else◌, holds_for, read_table}

digit_chars : String
digit_chars = "0123456789"

nth_char : String → ℕ → Char
nth_char String.[] i = "0"
nth_char (String.◌∷◌ c s) zero = c
nth_char (String.◌∷◌ c s) (suc i) = nth_char s i

digit : ℕ → Char
unfolding nth_char digit_chars
digit d = nth_char digit_chars d

acc_below : (k n : ℕ) → n < k → Acc ◌<◌ n
acc_below zero n h = absurd (omega arith)
acc_below (suc k) n h = Acc.intro n (λ m hm. acc_below k m (omega arith))

unfoldable pub lt_wf : WellFounded ◌<◌
unfolding acc_below
lt_wf = record { apply = λ n. acc_below (suc n) n (omega arith) }

pub tenth_lt : (n : ℕ) → 0 < n → n / 10 < n
tenth_lt n h = omega arith

digits : (n : ℕ) → Acc ◌<◌ n → String → String
digits n (Acc.intro _ smaller) out =
    dite (dec_lt 0 n)
      (λ h. digits (n / 10) (smaller _ (tenth_lt n h)) (String.◌∷◌ (digit (n % 10)) out)) (λ _. out)

unfoldable pub decimal : ℕ → String
unfolding digits lt_wf digit dec_lt
decimal n = if nat_eq n 0 then "0" else digits n (lt_wf.apply n) ""

value : String → ℕ → ℕ
value String.[] n = n
value (String.◌∷◌ c s) n = value s (n * 10 + (code c - b'0'))

reads : ℕ → Bool
reads d = nat_eq (code (digit d) - b'0') d

reads_table : holds_for reads 10 ≡ true
unfolding reads digit
reads_table = refl

code-digit : (d : ℕ) → d < 10 → code (digit d) - b'0' ≡ d
unfolding reads
code-digit d h = ground (arith, read_table reads 10 d reads_table h)

value-digit :
    (x : ℕ) (out : String) → value (String.◌∷◌ (digit (x % 10)) out) (x / 10) ≡ value out x
unfolding value
value-digit x out =
    let e : x / 10 * 10 + (code (digit (x % 10)) - b'0') ≡ x =
      omega (arith, code-digit (x % 10) (omega arith)) in
    ap (value out) e

value-digits : (n : ℕ) (w : Acc ◌<◌ n) (out : String) → value (digits n w out) 0 ≡ value out n
unfolding digits
value-digits n (Acc.intro _ smaller) out = elim (dec_lt 0 n) [
  | yes p ↦
      ap (λ s. value s 0) (dif_pos (dec_lt 0 n) le_prop p _ _)
      ∙ value-digits (n / 10) (smaller _ (tenth_lt n p)) (String.◌∷◌ (digit (n % 10)) out)
      ∙ value-digit n out
  | no p ↦
      let e : 0 ≡ n = omega arith in
      ap (λ s. value s 0) (dif_neg (dec_lt 0 n) p _ _) ∙ ap (value out) e
]

value-decimal : (n : ℕ) → value (decimal n) 0 ≡ n
unfolding decimal value
value-decimal zero = refl
value-decimal (suc n) = ground (arith, value-digits (suc n) (lt_wf.apply (suc n)) "")

-- Different numbers have different texts.
pub decimal-injective : (m n : ℕ) → decimal m ≡ decimal n → m ≡ n
decimal-injective m n e = sym (value-decimal m) ∙ ap (λ s. value s 0) e ∙ value-decimal n

decimal_407 : decimal 407 ≡ "407"
unfolding decimal
decimal_407 = refl
