-- ===== src/Display/Log/Plain.antt =====
-- Texts without a 0.
use aeon_486_os.Base.{ℕ, zero, suc, ◌/◌, ◌%◌, ◌≡◌, refl, arith, List, [], ◌∷◌, ◌++◌}
use aeon_486_os.Base.{true, false, ◌==◌, Bool-cases, inl, inr}
use aeon_486_os.Klibc.Strings.Digits.{digit_char}
use aeon_486_os.Klibc.Strings.Shortest.{numeral, significant}
use aeon_486_os.Display.Output.Text.{IsFormatText, plain, plain-IsFormatText}
use aeon_486_os.Display.Output.Format.{}
use aeon_486_os.Display.Textmode.Cursor.{IsText}
use aeon_486_os.Display.Log.{c_string}

IsFormatText-IsText : (cs : List ℕ) → IsFormatText cs → IsText cs
unfolding IsFormatText IsText
IsFormatText-IsText [] h = tt
IsFormatText-IsText (c ∷ cs) (char, other, h) = (char, IsFormatText-IsText cs h)

pub plain-IsText : (cs : List ℕ) → plain cs ≡ true → IsText cs
plain-IsText cs h = IsFormatText-IsText cs (plain-IsFormatText cs h)

pub IsText-append : (cs ds : List ℕ) → IsText cs → IsText ds → IsText (cs ++ ds)
unfolding IsText
IsText-append [] ds h k = k
IsText-append (c ∷ cs) ds (char, h) k = (char, IsText-append cs ds h k)

IsText-significant : (base n value : ℕ) → IsText (significant base n value)
unfolding significant IsText
IsText-significant base zero value = tt
IsText-significant base (suc n) value = elim (Bool-cases (value == 0)) [
  | inl nil ↦ rw nil tt
  | inr more ↦
      let digit : (digit_char (value % base) == 0) ≡ false = ground arith in
      rw more (
        IsText-append (significant base n (value / base)) (digit_char (value % base) ∷ [])
          (IsText-significant base n (value / base)) (digit, tt))
]

pub IsText-numeral : (base value : ℕ) → IsText (numeral base value)
unfolding numeral IsText
IsText-numeral base value = elim (Bool-cases (value == 0)) [
  | inl nil ↦ rw nil (refl, tt)
  | inr more ↦ rw more (IsText-significant base 32 value)
]

pub IsText-c_string : (cs : List ℕ) → IsText (c_string cs)
unfolding c_string IsText
IsText-c_string [] = tt
IsText-c_string (c ∷ cs) = elim (Bool-cases (c == 0)) [
  | inl nil ↦ rw nil tt
  | inr char ↦ rw char (char, IsText-c_string cs)
]
