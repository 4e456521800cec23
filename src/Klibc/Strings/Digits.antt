-- ===== src/Klibc/Strings/Digits.antt =====
-- `itoa` of klibc/private/stdlib.c, filled up with zeros, is the digits of the number.
use aeon_486_os.Base.{ℕ, zero, suc, ◌+◌, ◌-◌, ◌/◌, ◌%◌, ◌^◌, ◌≤◌, ◌<◌, List, [], ◌∷◌, ◌++◌}
use aeon_486_os.Base.{ok, ◌≡◌, inl, inr, refl, arith, ap, ◌∙◌, sym, true, false}
use aeon_486_os.Base.{
  ltb, ◌==◌, if◌then◌else◌, length, replicate, get_or, read, read_lem, Bool-cases, all_below,
  all_below_sound, ==→eq,
}
use native.Mathlib.Nat.{pow-suc, pow-zero, div-lt_iff_lt-mul}
use mathlib.Core.List.{append_assoc, append-nil}
use aeon_486_os.Klibc.Strings.{bchars, digits_from, copy_out, itoa}
use aeon_486_os.Klibc.Strings.Numerals.{digits_from-nil, digits_from-suc, length-copy_out}

-- The character of a digit.
abbrev pub digit_char : ℕ → ℕ
digit_char d = if ltb d 10 then b'0' + d else b'A' + (d - 10)

-- The last `n` digits of a number, highest first.
unfoldable pub digits_of : (base n value : ℕ) → List ℕ
digits_of base zero value = []
digits_of base (suc n) value = digits_of base n (value / base) ++ (digit_char (value % base) ∷ [])

low_digits : (base n value : ℕ) → List ℕ
low_digits base zero value = []
low_digits base (suc n) value = digit_char (value % base) ∷ low_digits base n (value / base)

digit_table : all_below 16 (λ d. get_or bchars d 0 == digit_char d) ≡ true
unfolding all_below
digit_table = refl

pub read-digit_char : (d : ℕ) → d < 16 → read bchars d ≡ ok (digit_char d)
read-digit_char d h =
    read_lem bchars d h
    ∙ ap ok (
        ==→eq _ (digit_char d)
          (all_below_sound 16 (λ x. get_or bchars x 0 == digit_char x) d digit_table h))

low_digits-zero : (base n : ℕ) → 2 ≤ base → low_digits base n 0 ≡ replicate n b'0'
unfolding low_digits
low_digits-zero base zero two = refl
low_digits-zero base (suc n) two =
    let rest : 0 / base ≡ 0 = omega arith in
    let digit : 0 % base ≡ 0 = omega arith in
    rw (rest, digit) (ap (λ cs. b'0' ∷ cs) (low_digits-zero base n two))

quotient-lt-pow : (value base n : ℕ) → 2 ≤ base → value < base ^ suc n → value / base < base ^ n
quotient-lt-pow value base n two small =
    (div-lt_iff_lt-mul {k = base} {x = value} {y = base ^ n} (omega arith)).1
      (omega (arith, pow-suc base n))

low_digits-suc :
    (base n value : ℕ) (tbuf : List ℕ)
    → tbuf ++ replicate (n - length tbuf) b'0' ≡ low_digits base n (value / base)
    → (digit_char (value % base) ∷ tbuf) ++ replicate (suc n - suc (length tbuf)) b'0'
      ≡ low_digits base (suc n) value
unfolding low_digits
low_digits-suc base n value tbuf same =
    let count : suc n - suc (length tbuf) ≡ n - length tbuf = omega arith in
    rw count (ap (λ cs. digit_char (value % base) ∷ cs) same)

-- The digits that the loop stores, with the zeros that are missing.
digits_from-low_digits :
    (n room value base : ℕ)
    → 2 ≤ base
    → base ≤ 16
    → n < room
    → value < base ^ n
    → (tbuf : List ℕ) × (digits_from room value base ≡ ok tbuf)
      × (length tbuf ≤ n)
      × (tbuf ++ replicate (n - length tbuf) b'0' ≡ low_digits base n value)
digits_from-low_digits n zero value base two top space small = absurd (omega arith)
digits_from-low_digits zero (suc room) value base two top space small =
    let nil : value ≡ 0 = omega (arith, pow-zero base) in
    rw nil ([], digits_from-nil room base, omega arith, unfold low_digits in refl)
digits_from-low_digits (suc n) (suc room) value base two top space small =
    elim (Bool-cases (value == 0)) [
      | inl nil ↦
          let e : value ≡ 0 = ==→eq value 0 nil in
          let count : suc n - 0 ≡ suc n = omega arith in
          let same : replicate (suc n - 0) b'0' ≡ low_digits base (suc n) 0 =
            ap (λ k. replicate k b'0') count ∙ sym (low_digits-zero base (suc n) two) in
          rw e ([], digits_from-nil room base, omega arith, same)
      | inr more ↦
          let (tbuf, runs, fits, same) =
            digits_from-low_digits n room (value / base) base two top (omega arith)
              (quotient-lt-pow value base n two small) in
          let digit = read-digit_char (value % base) (omega arith) in
          let pos : (base == 0) ≡ false = ground arith in
          (
            digit_char (value % base) ∷ tbuf,
            digits_from-suc room value base (digit_char (value % base)) tbuf more pos digit runs,
            omega arith,
            low_digits-suc base n value tbuf same,
          )
    ]

copy_out-append :
    (first second str : List ℕ)
    → copy_out (first ++ second) str ≡ copy_out second (copy_out first str)
unfolding copy_out
copy_out-append [] second str = refl
copy_out-append (c ∷ first) second str = copy_out-append first second (c ∷ str)

replicate-snoc : (n c : ℕ) → replicate n c ++ (c ∷ []) ≡ c ∷ replicate n c
replicate-snoc zero c = refl
replicate-snoc (suc n) c = ap (λ cs. c ∷ cs) (replicate-snoc n c)

copy_out-replicate : (n c : ℕ) (str : List ℕ) → copy_out (replicate n c) str ≡ replicate n c ++ str
unfolding copy_out
copy_out-replicate zero c str = refl
copy_out-replicate (suc n) c str =
    copy_out-replicate n c (c ∷ str)
    ∙ sym (append_assoc (replicate n c) (c ∷ []) str)
    ∙ ap (λ cs. cs ++ str) (replicate-snoc n c)

copy_out-low_digits :
    (base n value : ℕ) (str : List ℕ)
    → copy_out (low_digits base n value) str ≡ digits_of base n value ++ str
unfolding copy_out low_digits digits_of
copy_out-low_digits base zero value str = refl
copy_out-low_digits base (suc n) value str =
    let c = digit_char (value % base) in
    copy_out-low_digits base n (value / base) (c ∷ str)
    ∙ sym (append_assoc (digits_of base n (value / base)) (c ∷ []) str)

digits_of-zero : (base n : ℕ) → 2 ≤ base → digits_of base n 0 ≡ replicate n b'0'
digits_of-zero base n two =
    sym (append-nil (digits_of base n 0))
    ∙ sym (copy_out-low_digits base n 0 [])
    ∙ ap (λ t. copy_out t []) (low_digits-zero base n two)
    ∙ copy_out-replicate n b'0' []
    ∙ append-nil (replicate n b'0')

-- Stored digits, copied out and filled up.
filled_digits :
    (base n value : ℕ) (tbuf : List ℕ)
    → tbuf ++ replicate (n - length tbuf) b'0' ≡ low_digits base n value
    → replicate (n - length tbuf) b'0' ++ copy_out tbuf [] ≡ digits_of base n value
filled_digits base n value tbuf same =
    sym (copy_out-replicate (n - length tbuf) b'0' (copy_out tbuf []))
    ∙ sym (copy_out-append tbuf (replicate (n - length tbuf) b'0') [])
    ∙ ap (λ t. copy_out t []) same
    ∙ copy_out-low_digits base n value []
    ∙ append-nil (digits_of base n value)

-- The text of a number that has at most `n` digits, filled up with zeros to `n` characters, is the
-- last `n` digits of the number.
pub itoa-digits_of :
    (base n value : ℕ)
    → 2 ≤ base
    → base ≤ 16
    → 1 ≤ n
    → n ≤ 32
    → value < base ^ n
    → (str : List ℕ) × (itoa value base ≡ ok str)
      × (replicate (n - length str) b'0' ++ str ≡ digits_of base n value)
unfolding itoa
itoa-digits_of base n value two top pos room small = elim (Bool-cases (value == 0)) [
  | inl nil ↦
      let e : value ≡ 0 = ==→eq value 0 nil in
      let less : n ≡ suc (n - 1) = omega arith in
      rw e (
        b'0' ∷ [],
        refl,
        replicate-snoc (n - 1) b'0'
            ∙ ap (λ k. replicate k b'0') (sym less)
            ∙ sym (digits_of-zero base n two),
      )
  | inr more ↦
      let (tbuf, runs, fits, same) =
        digits_from-low_digits n 33 value base two top (omega arith) small in
      let in_base : ltb 16 base ≡ false = ground arith in
      let size = length-copy_out tbuf [] in
      let count : n - length (copy_out tbuf []) ≡ n - length tbuf = omega (arith, size) in
      rw (more, in_base, runs)
        (copy_out tbuf [], refl, rw count (filled_digits base n value tbuf same))
]
