-- ===== src/Enumeration/Decimal.antt =====
-- The verb `%d` of `fmt`, at a number that is not negative, and the number that its digits denote.
use Prim.Native.Char.{code}
use Prim.Native.String.{String, ◌++◌, count}
use text.Mathlib.TextLemmas as Laws
use bacnet_go.Enumeration.Separator.{lacks, lacks-append}
use bacnet_go.Base.{
  ◌⊎◌, ℕ, zero, suc, ◌+◌, ◌-◌, ◌*◌, ◌/◌, ◌%◌, ◌<◌, ◌≡◌, refl, sym, ap, ◌∙◌, true, false, ltb, ◌==◌,
  if◌then◌else◌, arith,
}

digit : ℕ → String
digit d =
    if d == 0
    then "0"
    else if d == 1
    then "1"
    else if d == 2
    then "2"
    else if d == 3
    then "3"
    else if d == 4
    then "4"
    else if d == 5
    then "5"
    else if d == 6
    then "6"
    else if d == 7
    then "7"
    else if d == 8
    then "8"
    else "9"

decimal_with : ℕ → ℕ → String
unfolding digit
decimal_with zero n = ""
decimal_with (suc fuel) n = elim (ltb n 10) [
  | true ↦ digit n
  | false ↦ decimal_with fuel (n / 10) ++ digit (n % 10)
]

-- A number has no more digits than its successor says.
unfoldable pub decimal : ℕ → String
unfolding decimal_with
decimal n = decimal_with (suc n) n

-- What the digits of a text denote, behind digits that denote `acc`.
denotes : ℕ → String → ℕ
denotes acc String.[] = acc
denotes acc (String.◌∷◌ c s) = denotes (acc * 10 + (code c - b'0')) s

denotes-append : (acc : ℕ) (s t : String) → denotes acc (s ++ t) ≡ denotes (denotes acc s) t
unfolding denotes
denotes-append acc String.[] t = ap (denotes acc) (Laws.nil-append t)
denotes-append acc (String.◌∷◌ c s) t =
    ap (denotes acc) (Laws.cons-append c s t) ∙ denotes-append (acc * 10 + (code c - b'0')) s t

denotes-digit : (acc d : ℕ) → d < 10 → denotes acc (digit d) ≡ acc * 10 + d
unfolding denotes digit
denotes-digit acc zero h = omega arith
denotes-digit acc (suc zero) h = omega arith
denotes-digit acc (suc (suc zero)) h = omega arith
denotes-digit acc (suc (suc (suc zero))) h = omega arith
denotes-digit acc (suc (suc (suc (suc zero)))) h = omega arith
denotes-digit acc (suc (suc (suc (suc (suc zero))))) h = omega arith
denotes-digit acc (suc (suc (suc (suc (suc (suc zero)))))) h = omega arith
denotes-digit acc (suc (suc (suc (suc (suc (suc (suc zero))))))) h = omega arith
denotes-digit acc (suc (suc (suc (suc (suc (suc (suc (suc zero)))))))) h = omega arith
denotes-digit acc (suc (suc (suc (suc (suc (suc (suc (suc (suc zero))))))))) h = omega arith
denotes-digit acc (suc (suc (suc (suc (suc (suc (suc (suc (suc (suc d)))))))))) h =
    absurd (omega arith)

denotes-decimal_with : (fuel n : ℕ) → n < fuel → denotes 0 (decimal_with fuel n) ≡ n
unfolding decimal_with
denotes-decimal_with zero n h = absurd (omega arith)
denotes-decimal_with (suc fuel) n h = ground (
  arith,
  denotes-digit 0 n,
  denotes-append 0 (decimal_with fuel (n / 10)) (digit (n % 10)),
  denotes-digit (n / 10) (n % 10),
  denotes-decimal_with fuel (n / 10),
)

-- Two numbers are not printed alike.
pub decimal-injective : (a b : ℕ) → decimal a ≡ decimal b → a ≡ b
unfolding decimal
decimal-injective a b e =
    sym (denotes-decimal_with (suc a) a (omega arith))
    ∙ ap (denotes 0) e
    ∙ denotes-decimal_with (suc b) b (omega arith)

-- The verb `%0*d`: zeros up to a width.
zeros : ℕ → String
zeros zero = ""
zeros (suc k) = "0" ++ zeros k

unfoldable pub padded : ℕ → ℕ → String
unfolding zeros
padded width n = let s = decimal n in zeros (width - count s) ++ s

denotes-zeros : (k : ℕ) (s : String) → denotes 0 (zeros k ++ s) ≡ denotes 0 s
unfolding zeros denotes
denotes-zeros zero s = ap (denotes 0) (Laws.nil-append s)
denotes-zeros (suc k) s =
    ap (denotes 0) (Laws.append_assoc "0" (zeros k) s)
    ∙ denotes-append 0 "0" (zeros k ++ s)
    ∙ denotes-zeros k s

pub padded-injective : (width a b : ℕ) → padded width a ≡ padded width b → a ≡ b
unfolding padded decimal
padded-injective width a b e =
    sym (denotes-decimal_with (suc a) a (omega arith))
    ∙ sym (denotes-zeros (width - count (decimal a)) (decimal a))
    ∙ ap (denotes 0) e
    ∙ denotes-zeros (width - count (decimal b)) (decimal b)
    ∙ denotes-decimal_with (suc b) b (omega arith)

-- A character that is no digit.
abbrev pub IsNoDigit : ℕ → Type 0
IsNoDigit c = (c < b'0') ⊎ (b'9' < c)

lacks-digit : (c d : ℕ) → IsNoDigit c → d < 10 → lacks c (digit d) ≡ true
unfolding lacks digit
lacks-digit c zero h k = ground arith
lacks-digit c (suc zero) h k = ground arith
lacks-digit c (suc (suc zero)) h k = ground arith
lacks-digit c (suc (suc (suc zero))) h k = ground arith
lacks-digit c (suc (suc (suc (suc zero)))) h k = ground arith
lacks-digit c (suc (suc (suc (suc (suc zero))))) h k = ground arith
lacks-digit c (suc (suc (suc (suc (suc (suc zero)))))) h k = ground arith
lacks-digit c (suc (suc (suc (suc (suc (suc (suc zero))))))) h k = ground arith
lacks-digit c (suc (suc (suc (suc (suc (suc (suc (suc zero)))))))) h k = ground arith
lacks-digit c (suc (suc (suc (suc (suc (suc (suc (suc (suc zero))))))))) h k = ground arith
lacks-digit c (suc (suc (suc (suc (suc (suc (suc (suc (suc (suc d)))))))))) h k =
    absurd (omega arith)

lacks-decimal_with : (c fuel n : ℕ) → IsNoDigit c → lacks c (decimal_with fuel n) ≡ true
unfolding decimal_with lacks
lacks-decimal_with c zero n h = refl
lacks-decimal_with c (suc fuel) n h = ground (
  arith,
  lacks-digit c n,
  lacks-append c (decimal_with fuel (n / 10)) (digit (n % 10)),
  lacks-digit c (n % 10) h (omega arith),
  lacks-decimal_with c fuel (n / 10) h,
)

pub lacks-decimal : (c n : ℕ) → IsNoDigit c → lacks c (decimal n) ≡ true
unfolding decimal
lacks-decimal c n h = lacks-decimal_with c (suc n) n h

lacks-zeros : (c k : ℕ) → IsNoDigit c → lacks c (zeros k) ≡ true
unfolding zeros lacks
lacks-zeros c zero h = refl
lacks-zeros c (suc k) h = ground (arith, lacks-append c "0" (zeros k), lacks-zeros c k h)

pub lacks-padded : (c width n : ℕ) → IsNoDigit c → lacks c (padded width n) ≡ true
unfolding padded
lacks-padded c width n h = ground (
  arith,
  lacks-append c (zeros (width - count (decimal n))) (decimal n),
  lacks-zeros c (width - count (decimal n)) h,
  lacks-decimal c n h,
)
