-- ===== src/Hexdump/Prints.antt =====
-- What each call of `khexdump` shows.
use aeon_486_os.Base.{
  ℕ, zero, suc, ◌<◌, ◌^◌, ◌≡◌, refl, arith, ◌∙◌, sym, ap, List, [], ◌∷◌, ◌++◌, map, codes,
  replicate, bit_and,
}
use aeon_486_os.Base.{
  true, ◌==◌, ok, panic, fault, all_below, all_below_sound, ==→eq, Outcome-cases, read,
  if◌then◌else◌, Bool-cases, inl, inr,
}
use mathlib.Core.List.{append_assoc, append-nil}
use aeon_486_os.Klibc.Strings.{isprint, strlen, strlen_from}
use aeon_486_os.Klibc.Strings.Digits.{digits_of}
use aeon_486_os.Display.Output.{
  Call, int, putc, kvprintf, kvprintf_from, kvprintf_round, directive, next_int, shown,
}
use aeon_486_os.Display.Output.Text.{IsFormatText, plain, plain-IsFormatText, kvprintf_text}
use aeon_486_os.Display.Output.Shown.{shown-text}
use aeon_486_os.Display.Output.Digits.{kvprintf_hex_digits}
use aeon_486_os.Hexdump.{Print, print_text, print_byte, print_offset, print_char, print_all}

-- The texts of a list, one behind the other.
abbrev pub concat : List (List ℕ) → List ℕ
concat [] = []
concat (t ∷ ts) = t ++ concat ts

unfoldable pub AllBytes : List ℕ → Type 0
AllBytes [] = Unit
AllBytes (byte ∷ bytes) = (byte < 256) × AllBytes bytes

print_all-one :
    (print : Print) (text : List ℕ) (calls : List Call)
    → kvprintf print.fmt print.arguments ≡ ok calls
    → shown calls ≡ text
    → print_all (print ∷ []) ≡ ok text
unfolding print_all
print_all-one print text calls runs shows = rw (runs, shows) (ap ok (append-nil text))

pub print_all-text :
    (text : List ℕ) → plain text ≡ true → print_all (print_text text ∷ []) ≡ ok text
print_all-text text checked =
    print_all-one (print_text text) text (map putc text)
      (kvprintf_text text [] (plain-IsFormatText text checked)) (shown-text text)

print_all-parts :
    (print : Print) (prints : List Print) (s : List ℕ)
    → print_all (print ∷ prints) ≡ ok s
    → (calls : List Call) × (rest : List ℕ) × (kvprintf print.fmt print.arguments ≡ ok calls)
      × (print_all prints ≡ ok rest)
      × (shown calls ++ rest ≡ s)
unfolding print_all
print_all-parts print prints s runs = elim (Outcome-cases (kvprintf print.fmt print.arguments)) [
  | inl (calls, e) ↦ elim (Outcome-cases (print_all prints)) [
    | inl (rest, r) ↦ (
      calls,
      rest,
      e,
      r,
      let all : print_all (print ∷ prints) ≡ ok (shown calls ++ rest) = rw (e, r) refl in
          cc (runs, all),
    )
    | inr (inl (p, r)) ↦
        let no : print_all (print ∷ prints) ≡ panic p = rw (e, r) refl in absurd (cc (runs, no))
    | inr (inr r) ↦
        let no : print_all (print ∷ prints) ≡ fault = rw (e, r) refl in absurd (cc (runs, no))
  ]
  | inr (inl (p, e)) ↦
      let no : print_all (print ∷ prints) ≡ panic p = rw e refl in absurd (cc (runs, no))
  | inr (inr e) ↦ let no : print_all (print ∷ prints) ≡ fault = rw e refl in absurd (cc (runs, no))
]

pub print_all-append :
    (first second : List Print) (s t : List ℕ)
    → print_all first ≡ ok s
    → print_all second ≡ ok t
    → print_all (first ++ second) ≡ ok (s ++ t)
unfolding print_all
print_all-append [] second s t runs later =
    let nil : [] ≡ s = cc runs in later ∙ ap (λ cs. ok (cs ++ t)) nil
print_all-append (print ∷ first) second s t runs later =
    let (calls, rest, e, r, split) = print_all-parts print first s runs in
    rw (e, print_all-append first second rest t r later)
      (ap ok (sym (append_assoc (shown calls) rest t) ∙ ap (λ cs. cs ++ t) split))

pub print_all-replicate :
    (n : ℕ) (print : Print) (text : List ℕ)
    → print_all (print ∷ []) ≡ ok text
    → print_all (replicate n print) ≡ ok (concat (replicate n text))
unfolding print_all
print_all-replicate zero print text runs = refl
print_all-replicate (suc n) print text runs =
    print_all-append (print ∷ []) (replicate n print) text (concat (replicate n text)) runs
      (print_all-replicate n print text runs)

-- A list of calls, each of which shows the text of its byte.
pub print_all-map :
    (bytes : List ℕ) (print : ℕ → Print) (text : ℕ → List ℕ)
    → ((byte : ℕ) → byte < 256 → print_all (print byte ∷ []) ≡ ok (text byte))
    → AllBytes bytes
    → print_all (map print bytes) ≡ ok (concat (map text bytes))
unfolding print_all AllBytes
print_all-map [] print text each small = refl
print_all-map (byte ∷ bytes) print text each (low, small) =
    print_all-append (print byte ∷ []) (map print bytes) (text byte) (concat (map text bytes))
      (each byte low) (print_all-map bytes print text each small)

pub print_all-byte :
    (byte : ℕ)
    → byte < 256
    → print_all (print_byte byte ∷ []) ≡ ok (digits_of 16 2 byte ++ codes " ")
unfolding IsFormatText
print_all-byte byte small =
    let (calls, runs, shows) =
      kvprintf_hex_digits [] (codes " ") 2 byte tt (plain-IsFormatText (codes " ") refl)
        (omega arith) (omega arith) small (omega arith) in
    print_all-one (print_byte byte) (digits_of 16 2 byte ++ codes " ") calls runs shows

pub print_all-offset :
    (offset : ℕ)
    → offset < 2 ^ 32
    → print_all (print_offset offset ∷ []) ≡ ok (digits_of 16 8 offset ++ codes "|")
unfolding IsFormatText
print_all-offset offset small =
    let (calls, runs, shows) =
      kvprintf_hex_digits [] (codes "|") 8 offset tt (plain-IsFormatText (codes "|") refl)
        (omega arith) (omega arith) small small in
    print_all-one (print_offset offset) (digits_of 16 8 offset ++ codes "|") calls runs shows

kvprintf-char :
    (c : ℕ) → kvprintf (codes "%c" ++ (0 ∷ [])) (int c ∷ []) ≡ ok (putc (bit_and c 0xFF) ∷ [])
unfolding kvprintf kvprintf_from kvprintf_round directive next_int strlen strlen_from read
kvprintf-char c = refl

mask_table : all_below 256 (λ c. bit_and c 0xFF == c) ≡ true
unfolding all_below
mask_table = refl

bit_and-byte : (c : ℕ) → c < 256 → bit_and c 0xFF ≡ c
bit_and-byte c small =
    ==→eq (bit_and c 0xFF) c (all_below_sound 256 (λ x. bit_and x 0xFF == x) c mask_table small)

abbrev pub glyph : ℕ → ℕ
glyph byte = if isprint byte then byte else b'.'

pub print_all-char :
    (byte : ℕ) → byte < 256 → print_all (print_char byte ∷ []) ≡ ok (glyph byte ∷ [])
unfolding shown
print_all-char byte small = elim (Bool-cases (isprint byte)) [
  | inl e ↦ rw e (
      print_all-one (record { fmt = codes "%c" ++ (0 ∷ []); arguments = int byte ∷ [] }) (byte ∷ [])
        (putc (bit_and byte 0xFF) ∷ []) (kvprintf-char byte) (rw (bit_and-byte byte small) refl))
  | inr e ↦ rw e (print_all-text (codes ".") refl)
]
