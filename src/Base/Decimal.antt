-- ===== src/Base/Decimal.antt =====
-- `strconv.Itoa` and `strconv.Atoi` (base 10, 64 bits).
use Prim.Native.Nat.{ℕ, zero, suc, ◌+◌, ◌-◌, ◌*◌, ◌/◌, ◌%◌, ◌≤◌, ◌<◌}
use Prim.Native.Char.{Char, code}
use Prim.Native.String.{String}
use mathlib.Core.Path.{◌≡◌, refl, sym, ap, ◌∙◌}
use mathlib.Core.Logic.{◌≢◌, inl, inr}
use mathlib.Core.Bool.{Bool, true, false, ◌&&◌}
use mathlib.Core.Option.{Option, none, some}
use native.Mathlib.Omega.{arith}
use text.Mathlib.TextLemmas.{cons-ne-nil}
use exoscale_csi_driver.Base.Tests.{Bool-cases, leb, ◌==◌, if◌then◌else◌}
use exoscale_csi_driver.Base.Int.{ℤ, pos, negsuc, sub_ℕ}

-- The character of a digit below 10.
abbrev digit_char : ℕ → Char
digit_char zero = "0"
digit_char (suc zero) = "1"
digit_char (suc (suc zero)) = "2"
digit_char (suc (suc (suc zero))) = "3"
digit_char (suc (suc (suc (suc zero)))) = "4"
digit_char (suc (suc (suc (suc (suc zero))))) = "5"
digit_char (suc (suc (suc (suc (suc (suc zero)))))) = "6"
digit_char (suc (suc (suc (suc (suc (suc (suc zero))))))) = "7"
digit_char (suc (suc (suc (suc (suc (suc (suc (suc zero)))))))) = "8"
digit_char _ = "9"

-- The digits of `n` in front of a text. The fuel `n + 1` is enough: each round divides by 10.
emit : ℕ → ℕ → String → String
emit zero n s = s
emit (suc fuel) n s =
    let t = String.◌∷◌ (digit_char (n % 10)) s in
    let rest = emit fuel (n / 10) t in if n / 10 == 0 then t else rest

printed : ℕ → String
unfolding emit
printed n = emit (suc n) n ""

unfoldable pub itoa : ℤ → String
unfolding printed
itoa (pos n) = printed n
itoa (negsuc n) = String.◌∷◌ "-" (printed (suc n))

scan : ℕ → String → Option ℕ
scan acc String.[] = some acc
scan acc (String.◌∷◌ c s) =
    let rest = scan (acc * 10 + (code c - 48)) s in
    if leb 48 (code c) && leb (code c) 57 then rest else none

-- At least one digit.
unsigned : String → Option ℕ
unsigned String.[] = none
unsigned (String.◌∷◌ c s) = scan 0 (String.◌∷◌ c s)

-- The value with its sign, if it is an `int`.
in_range : Bool → ℕ → Option ℤ
in_range minus n =
    if minus
    then (if leb n 9223372036854775808 then some (sub_ℕ 0 n) else none)
    else if leb n 9223372036854775807
    then some (pos n)
    else none

signed : Bool → String → Option ℤ
signed minus s = elim (unsigned s) [ none ↦ none | some n ↦ in_range minus n ]

-- `none` is the error of `strconv.Atoi`, a syntax or a range error.
unfoldable pub atoi : String → Option ℤ
unfolding scan unsigned in_range signed
atoi String.[] = none
atoi (String.◌∷◌ c s) =
    if code c == b'-'
    then signed true s
    else if code c == b'+'
    then signed false s
    else signed false (String.◌∷◌ c s)

code-digit_char : (d : ℕ) → d < 10 → code (digit_char d) ≡ 48 + d
code-digit_char zero h = refl
code-digit_char (suc zero) h = refl
code-digit_char (suc (suc zero)) h = refl
code-digit_char (suc (suc (suc zero))) h = refl
code-digit_char (suc (suc (suc (suc zero)))) h = refl
code-digit_char (suc (suc (suc (suc (suc zero))))) h = refl
code-digit_char (suc (suc (suc (suc (suc (suc zero)))))) h = refl
code-digit_char (suc (suc (suc (suc (suc (suc (suc zero))))))) h = refl
code-digit_char (suc (suc (suc (suc (suc (suc (suc (suc zero)))))))) h = refl
code-digit_char (suc (suc (suc (suc (suc (suc (suc (suc (suc zero))))))))) h = refl
code-digit_char (suc (suc (suc (suc (suc (suc (suc (suc (suc (suc d)))))))))) h =
    absurd (omega arith)

scan-digit :
    (acc d : ℕ) (s : String)
    → d < 10
    → scan acc (String.◌∷◌ (digit_char d) s) ≡ scan (acc * 10 + d) s
unfolding scan
scan-digit acc d s h =
    let e : acc * 10 + (48 + d - 48) ≡ acc * 10 + d = omega arith in
    rw (code-digit_char d h, e) (ground arith)

scan-emit : (fuel n : ℕ) (s : String) → n < fuel → scan 0 (emit fuel n s) ≡ scan n s
unfolding emit
scan-emit zero n s h = absurd (omega arith)
scan-emit (suc fuel) n s h = elim (Bool-cases (n / 10 == 0)) [
  | inl e ↦ rw e (scan-digit 0 (n % 10) s (omega arith) ∙ ap (λ k. scan k s) (ground arith))
  | inr e ↦ rw e (
      scan-emit fuel (n / 10) _ (ground arith)
      ∙ scan-digit (n / 10) (n % 10) s (omega arith)
      ∙ ap (λ k. scan k s) (omega arith))
]

-- A printed number begins with a digit.
emit-head :
    (fuel n : ℕ) (s : String)
    → n < fuel
    → (d : ℕ) × (d < 10) × (t : String) × (emit fuel n s ≡ String.◌∷◌ (digit_char d) t)
unfolding emit
emit-head zero n s h = absurd (omega arith)
emit-head (suc fuel) n s h = elim (Bool-cases (n / 10 == 0)) [
  | inl e ↦ (n % 10, omega arith, s, rw e)
  | inr e ↦ rw e (emit-head fuel (n / 10) _ (ground arith))
]

printed-head :
    (n : ℕ) → (d : ℕ) × (d < 10) × (t : String) × (printed n ≡ String.◌∷◌ (digit_char d) t)
unfolding printed
printed-head n = emit-head (suc n) n "" (omega arith)

atoi_digit :
    (d : ℕ) (t : String)
    → d < 10
    → atoi (String.◌∷◌ (digit_char d) t) ≡ signed false (String.◌∷◌ (digit_char d) t)
unfolding atoi
atoi_digit d t h = rw (code-digit_char d h) (ground arith)

unsigned-cons : (s : String) (c : Char) (t : String) → s ≡ String.◌∷◌ c t → unsigned s ≡ scan 0 s
unfolding unsigned
unsigned-cons s c t e = rw e

scan-printed : (n : ℕ) → scan 0 (printed n) ≡ some n
unfolding scan printed
scan-printed n = scan-emit (suc n) n "" (omega arith)

unsigned-printed : (n : ℕ) → unsigned (printed n) ≡ some n
unsigned-printed n =
    let (d, h, t, e) = printed-head n in unsigned-cons (printed n) _ t e ∙ scan-printed n

signed-printed : (n : ℕ) → n ≤ 9223372036854775807 → signed false (printed n) ≡ some (pos n)
unfolding signed in_range
signed-printed n h = rw (unsigned-printed n, signed) (ground arith)

-- Printing a number of 64 bits that is not negative and reading it gives it back.
pub atoi-itoa : (n : ℕ) → n ≤ 9223372036854775807 → atoi (itoa (pos n)) ≡ some (pos n)
unfolding itoa
atoi-itoa n h =
    let (d, l, t, e) = printed-head n in
    ap atoi e ∙ atoi_digit d t l ∙ ap (signed false) (sym e) ∙ signed-printed n h

-- No number is printed as the empty text.
pub itoa-ne-empty : (n : ℕ) → itoa (pos n) ≢ ""
unfolding itoa
itoa-ne-empty n p = let (d, l, t, e) = printed-head n in cons-ne-nil _ _ (sym e ∙ p)
