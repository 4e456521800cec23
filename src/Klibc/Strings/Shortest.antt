-- ===== src/Klibc/Strings/Shortest.antt =====
-- The text of `itoa` of klibc/private/stdlib.c, without zeros in front.
use aeon_486_os.Base.{ℕ, zero, suc, ◌/◌, ◌%◌, ◌^◌, ◌≤◌, ◌<◌, List, [], ◌∷◌, ◌++◌}
use aeon_486_os.Base.{ok, ◌≡◌, inl, inr, refl, arith, ap, ◌∙◌, sym, false, some}
use aeon_486_os.Base.{ltb, ◌==◌, if◌then◌else◌, Bool-cases, ==→eq}
use mathlib.Core.List.{append_assoc, append-nil}
use aeon_486_os.Klibc.Strings.{digits_from, copy_out, itoa, itoa_s}
use aeon_486_os.Klibc.Strings.Numerals.{
  digits_from-nil, digits_from-suc, quotient-lt, itoa_s-unsigned,
}
use aeon_486_os.Klibc.Strings.Digits.{digit_char, read-digit_char}

-- The digits of a number that has at most `n` of them, highest first; 0 has none.
unfoldable pub significant : (base n value : ℕ) → List ℕ
significant base zero value = []
significant base (suc n) value =
    let rest = significant base n (value / base) in
    if value == 0 then [] else rest ++ (digit_char (value % base) ∷ [])

-- A number below 2^32 as a text.
unfoldable pub numeral : (base value : ℕ) → List ℕ
numeral base value = if value == 0 then b'0' ∷ [] else significant base 32 value

low_first : (base n value : ℕ) → List ℕ
low_first base zero value = []
low_first base (suc n) value =
    let rest = low_first base n (value / base) in
    if value == 0 then [] else digit_char (value % base) ∷ rest

low_first-zero : (base n : ℕ) → low_first base n 0 ≡ []
unfolding low_first
low_first-zero base zero = refl
low_first-zero base (suc n) = refl

digits_from-low_first :
    (n base value : ℕ)
    → 2 ≤ base
    → base ≤ 16
    → value < 2 ^ n
    → digits_from (suc n) value base ≡ ok (low_first base n value)
digits_from-low_first zero base value two top small =
    let nil : value ≡ 0 = omega arith in rw (nil, low_first-zero base zero) (digits_from-nil 0 base)
digits_from-low_first (suc n) base value two top small = elim (Bool-cases (value == 0)) [
  | inl nil ↦
      let e : value ≡ 0 = ==→eq value 0 nil in
      rw (e, low_first-zero base (suc n)) (digits_from-nil (suc n) base)
  | inr more ↦
      let pos : (base == 0) ≡ false = ground arith in
      let small' = quotient-lt value base n two small in
      let rest = digits_from-low_first n base (value / base) two top small' in
      digits_from-suc (suc n) value base (digit_char (value % base))
        (low_first base n (value / base)) more pos (read-digit_char (value % base) (omega arith))
        rest
      ∙ unfold low_first in rw more refl
]

copy_out-low_first :
    (n base value : ℕ) (str : List ℕ)
    → copy_out (low_first base n value) str ≡ significant base n value ++ str
unfolding copy_out low_first significant
copy_out-low_first zero base value str = refl
copy_out-low_first (suc n) base value str = elim (Bool-cases (value == 0)) [
  | inl nil ↦ rw nil refl
  | inr more ↦
      let c = digit_char (value % base) in
      rw more (
        copy_out-low_first n base (value / base) (c ∷ str)
        ∙ sym (append_assoc (significant base n (value / base)) (c ∷ []) str))
]

-- `itoa` of a 32-bit value, in a base from 2 to 16, is its shortest text.
pub itoa-numeral :
    (base value : ℕ)
    → 2 ≤ base
    → base ≤ 16
    → value < 2 ^ 32
    → itoa value base ≡ ok (numeral base value)
unfolding itoa numeral
itoa-numeral base value two top small = elim (Bool-cases (value == 0)) [
  | inl nil ↦ rw nil refl
  | inr more ↦
      let in_base : ltb 16 base ≡ false = ground arith in
      rw (more, in_base, digits_from-low_first 32 base value two top small)
        (ap ok (copy_out-low_first 32 base value [] ∙ append-nil (significant base 32 value)))
]

pub itoa_s-numeral :
    (base value : ℕ)
    → 2 ≤ base
    → base ≤ 16
    → value < 2 ^ 32
    → itoa_s value base ≡ ok (some (numeral base value))
itoa_s-numeral base value two top small =
    itoa_s-unsigned value base top (itoa-numeral base value two top small)
