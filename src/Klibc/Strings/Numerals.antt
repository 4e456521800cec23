-- ===== src/Klibc/Strings/Numerals.antt =====
-- `itoa` and `itoa_s` of klibc/private/stdlib.c print the number that they are given.
use aeon_486_os.Base.{ℕ, zero, suc, ◌+◌, ◌-◌, ◌*◌, ◌/◌, ◌%◌, ◌^◌, ◌≤◌, ◌<◌, List, [], ◌∷◌, some}
use aeon_486_os.Base.{ok, ◌≡◌, inl, inr, refl, arith, ap, ◌∙◌, true, false}
use aeon_486_os.Base.{ltb, leb, ◌==◌, if◌then◌else◌, length, get_or, read, read_lem, Bool-cases}
use aeon_486_os.Base.{replicate, ◌++◌, all_below, all_below_sound, ==→eq}
use native.Mathlib.Nat.{pow-suc, div-add-mod', div-lt_iff_lt-mul}
use aeon_486_os.Klibc.Strings.{bchars, digits_from, copy_out, itoa, itoa_s}

-- The digit that a character of `bchars` stands for.
abbrev pub digit_value : ℕ → ℕ
digit_value c = if leb c b'9' then c - b'0' else c - 55

-- The number that a text stands for, after `acc`.
pub parse_from : ℕ → ℕ → List ℕ → ℕ
parse_from base acc [] = acc
parse_from base acc (c ∷ cs) = parse_from base (acc * base + digit_value c) cs

abbrev pub parse : ℕ → List ℕ → ℕ
parse base text = parse_from base 0 text

-- The number that `tbuf` stands for, lowest digit first.
low_first : ℕ → List ℕ → ℕ
low_first base [] = 0
low_first base (c ∷ cs) = low_first base cs * base + digit_value c

bchars_table : all_below 16 (λ d. digit_value (get_or bchars d 0) == d) ≡ true
unfolding all_below
bchars_table = refl

read-bchars : (d : ℕ) → d < 16 → (c : ℕ) × (read bchars d ≡ ok c) × (digit_value c ≡ d)
read-bchars d h = (
  get_or bchars d 0,
  read_lem bchars d h,
  ==→eq _ d (all_below_sound 16 (λ x. digit_value (get_or bchars x 0) == x) d bchars_table h),
)

parse_from-copy_out :
    (base : ℕ) (tbuf str : List ℕ)
    → parse_from base 0 (copy_out tbuf str) ≡ parse_from base (low_first base tbuf) str
unfolding copy_out parse_from low_first
parse_from-copy_out base [] str = refl
parse_from-copy_out base (c ∷ tbuf) str = parse_from-copy_out base tbuf (c ∷ str)

pub length-copy_out : (tbuf str : List ℕ) → length (copy_out tbuf str) ≡ length tbuf + length str
unfolding copy_out
length-copy_out [] str = omega arith
length-copy_out (c ∷ tbuf) str = omega (arith, length-copy_out tbuf (c ∷ str))

pub quotient-lt : (value base n : ℕ) → 2 ≤ base → value < 2 ^ suc n → value / base < 2 ^ n
quotient-lt value base n two small =
    let wide : 2 ^ n * 2 ≤ 2 ^ n * base = grind arith in
    (div-lt_iff_lt-mul {k = base} {x = value} {y = 2 ^ n} (omega arith)).1
      (omega (arith, pow-suc 2 n))

remainder-lt : (value base : ℕ) → 2 ≤ base → value % base < base
remainder-lt value base two = omega arith

pub digits_from-nil : (room base : ℕ) → digits_from (suc room) 0 base ≡ ok []
unfolding digits_from
digits_from-nil room base = refl

-- One round of the loop that stores a digit.
pub digits_from-suc :
    (room value base c : ℕ) (tbuf : List ℕ)
    → (value == 0) ≡ false
    → (base == 0) ≡ false
    → read bchars (value % base) ≡ ok c
    → digits_from room (value / base) base ≡ ok tbuf
    → digits_from (suc room) value base ≡ ok (c ∷ tbuf)
unfolding digits_from
digits_from-suc room value base c tbuf more pos stored runs = rw (more, pos, stored, runs) refl

-- With room for `n` digits the loop stores the digits of any number below 2^n.
digits_from_lem :
    (n value base : ℕ)
    → 2 ≤ base
    → base ≤ 16
    → value < 2 ^ n
    → (tbuf : List ℕ) × (digits_from (suc n) value base ≡ ok tbuf)
      × (low_first base tbuf ≡ value)
      × (length tbuf ≤ n)
unfolding low_first
digits_from_lem zero value base two top small =
    let nil : value ≡ 0 = omega arith in rw nil ([], digits_from-nil 0 base, refl, omega arith)
digits_from_lem (suc n) value base two top small = elim (Bool-cases (value == 0)) [
  | inl nil ↦
      let e : value ≡ 0 = ==→eq value 0 nil in
      rw e ([], digits_from-nil (suc n) base, refl, omega arith)
  | inr more ↦
      let half : value / base < 2 ^ n = quotient-lt value base n two small in
      let (tbuf, runs, value_of, fits) = digits_from_lem n (value / base) base two top half in
      let low : value % base < 16 = omega (arith, remainder-lt value base two) in
      let (c, stored, digit) = read-bchars (value % base) low in
      let pos : (base == 0) ≡ false = ground arith in
      (
        c ∷ tbuf,
        digits_from-suc (suc n) value base c tbuf more pos stored runs,
        rw (digit, value_of) (div-add-mod' value base),
        omega arith,
      )
]

-- For a base from 2 to 16, `itoa` of a 32-bit value stays within its buffer of 32 digits and returns
-- a text that stands for the value in that base.
pub itoa_lem :
    (value base : ℕ)
    → 2 ≤ base
    → base ≤ 16
    → value < 2 ^ 32
    → (text : List ℕ) × (itoa value base ≡ ok text) × (parse base text ≡ value) × (length text ≤ 32)
unfolding itoa
itoa_lem value base two top small = elim (Bool-cases (value == 0)) [
  | inl nil ↦
      let e : value ≡ 0 = ==→eq value 0 nil in
      rw e (b'0' ∷ [], refl, unfold parse_from in omega arith, omega arith)
  | inr more ↦
      let (tbuf, runs, value_of, fits) = digits_from_lem 32 value base two top small in
      let base_fits : ltb 16 base ≡ false = ground arith in
      rw (more, base_fits, runs)
        (
          copy_out tbuf [],
          refl,
          parse_from-copy_out base tbuf [] ∙ unfold parse_from in value_of,
          omega (arith, length-copy_out tbuf []),
        )
]

-- `itoa_s` prints a value as unsigned whatever its sign bit: it is `itoa` in each base up to 16.
pub itoa_s-unsigned :
    (value base : ℕ) {text : List ℕ}
    → base ≤ 16
    → itoa value base ≡ ok text
    → itoa_s value base ≡ ok (some text)
unfolding itoa_s
itoa_s-unsigned value base top printed =
    let base_fits : ltb 16 base ≡ false = ground arith in
    let never : ltb value 0 ≡ false = ground arith in rw (base_fits, never, printed)

-- Zeros in front do not change the number.
pub parse-zeros :
    (n base : ℕ) (str : List ℕ) → parse base (replicate n b'0' ++ str) ≡ parse base str
unfolding parse_from
parse-zeros zero base str = refl
parse-zeros (suc n) base str =
    let nothing : 0 * base + digit_value b'0' ≡ 0 = omega arith in
    ap (λ acc. parse_from base acc (replicate n b'0' ++ str)) nothing ∙ parse-zeros n base str
