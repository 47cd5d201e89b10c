-- ===== src/Core/Text/Numerals.antt =====
-- The number that a text ends with, after the last mark `#`, and decimal texts.
use Prim.Native.Char.{code}
use text.Mathlib.TextLemmas.{nil-append, cons-append}
use nestai.Prelude.{
  ℕ, zero, suc, ◌+◌, ◌-◌, ◌*◌, ◌/◌, ◌%◌, ◌<◌, ◌≡◌, ◌∙◌, ap, inl, inr, String, arith, ltb, ◌==◌,
  if◌then◌else◌, Bool-cases,
}
use nestai.Core.Text.{◌+++◌, digit, digits_in, decimal}

abbrev next : ℕ → ℕ → ℕ
next acc c = if c == b'#' then 0 else acc * 10 + (c - b'0')

abbrev scan : ℕ → String → ℕ
scan acc String.[] = acc
scan acc (String.◌∷◌ c s) = scan (next acc (code c)) s

unfoldable pub number_of : String → ℕ
number_of s = scan 0 s

scan-append : (acc : ℕ) (s t : String) → scan acc (s +++ t) ≡ scan (scan acc s) t
scan-append acc String.[] t = ap (scan acc) (nil-append t)
scan-append acc (String.◌∷◌ c s) t =
    ap (scan acc) (cons-append c s t) ∙ scan-append (next acc (code c)) s t

scan-digit : (acc n : ℕ) → n < 10 → scan acc (digit n) ≡ acc * 10 + n
scan-digit acc zero h = omega arith
scan-digit acc (suc zero) h = omega arith
scan-digit acc (suc (suc zero)) h = omega arith
scan-digit acc (suc (suc (suc zero))) h = omega arith
scan-digit acc (suc (suc (suc (suc zero)))) h = omega arith
scan-digit acc (suc (suc (suc (suc (suc zero))))) h = omega arith
scan-digit acc (suc (suc (suc (suc (suc (suc zero)))))) h = omega arith
scan-digit acc (suc (suc (suc (suc (suc (suc (suc zero))))))) h = omega arith
scan-digit acc (suc (suc (suc (suc (suc (suc (suc (suc zero)))))))) h = omega arith
scan-digit acc (suc (suc (suc (suc (suc (suc (suc (suc (suc zero))))))))) h = omega arith
scan-digit acc (suc (suc (suc (suc (suc (suc (suc (suc (suc (suc n)))))))))) h =
    absurd (omega arith)

scan-digits_in : (fuel n : ℕ) → n < fuel → scan 0 (digits_in fuel n) ≡ n
scan-digits_in zero n h = absurd (omega arith)
scan-digits_in (suc fuel) n h = elim (Bool-cases (ltb n 10)) [
  | inl e ↦ rw e (omega (arith, scan-digit 0 n (ground arith)))
  | inr e ↦ rw e (
      scan-append 0 (digits_in fuel (n / 10)) (digit (n % 10))
      ∙ omega (
        arith,
        scan-digit (scan 0 (digits_in fuel (n / 10))) (n % 10) (omega arith),
        scan-digits_in fuel (n / 10) (ground arith),
      ))
]

-- A decimal text after the mark is read back.
pub number_of-decimal : (name : String) (n : ℕ) → number_of (name +++ "#" +++ decimal n) ≡ n
unfolding number_of decimal
number_of-decimal name n =
    scan-append 0 name ("#" +++ digits_in (suc n) n)
    ∙ scan-append (scan 0 name) "#" (digits_in (suc n) n)
    ∙ scan-digits_in (suc n) n (omega arith)
