-- ===== src/Display/Output/Digits.antt =====
-- What `kvprintf` shows for a padded number in the midst of text.
use aeon_486_os.Base.{
  ℕ, ◌+◌, ◌-◌, ◌≤◌, ◌<◌, ◌^◌, ◌≡◌, refl, arith, ◌∙◌, sym, ap, List, [], ◌∷◌, ◌++◌, length,
  replicate,
}
use aeon_486_os.Base.{ok, length-append, length-replicate}
use mathlib.Core.List.{append-nil}
use aeon_486_os.Klibc.Strings.{itoa}
use aeon_486_os.Klibc.Strings.Numerals.{parse, parse-zeros, itoa_lem}
use aeon_486_os.Klibc.Strings.Digits.{digits_of, itoa-digits_of}
use aeon_486_os.Klibc.Strings.Shortest.{numeral, itoa-numeral}
use aeon_486_os.Display.Output.{Call, kvprintf, int, shown}
use aeon_486_os.Display.Output.Text.{IsFormatText}
use aeon_486_os.Display.Output.Format.{
  Piece, text, wide, letter_x, encode, IsFormat, AllFit, filled_up, field_text, in_front, render,
}
use aeon_486_os.Display.Output.Fields.{show_calls-ok, text_of_ok}
use aeon_486_os.Display.Output.Render.{kvprintf_lem}

-- `%0Wx` with one digit as width, and the text around it.
abbrev pub hex_format : (before : List ℕ) → (width : ℕ) → (after : List ℕ) → List ℕ
hex_format before width after =
    (before ++ (b'%' ∷ b'0' ∷ (b'0' + width) ∷ b'x' ∷ after)) ++ (0 ∷ [])

abbrev hex_pieces : (before : List ℕ) → (width : ℕ) → (after : List ℕ) → List Piece
hex_pieces before width after = text before ∷ wide width letter_x ∷ text after ∷ []

encode-hex_pieces :
    (before after : List ℕ) (width : ℕ)
    → encode (hex_pieces before width after) ++ (0 ∷ []) ≡ hex_format before width after
unfolding encode
encode-hex_pieces before after width = rw (append-nil after) refl

render-hex_pieces :
    (before after : List ℕ) (width value : ℕ)
    → render (hex_pieces before width after) 0 (int value ∷ [])
      ≡ ok (before ++ (filled_up width (numeral 16 value) ++ after))
unfolding render in_front field_text
render-hex_pieces before after width value = rw (append-nil after) refl

kvprintf_filled :
    (before after : List ℕ) (width value : ℕ)
    → IsFormatText before
    → IsFormatText after
    → width < 10
    → value < 2 ^ 32
    → (calls : List Call) × (kvprintf (hex_format before width after) (int value ∷ []) ≡ ok calls)
      × (shown calls ≡ before ++ (filled_up width (numeral 16 value) ++ after))
unfolding IsFormat AllFit
kvprintf_filled before after width value plain1 plain2 small fits =
    let shows =
      kvprintf_lem (hex_pieces before width after) (int value ∷ []) (plain1, (small, (plain2, tt)))
        (fits, tt) in
    show_calls-ok (kvprintf (hex_format before width after) (int value ∷ []))
      (before ++ (filled_up width (numeral 16 value) ++ after))
      (rw (encode-hex_pieces before after width) at shows
        ∙ render-hex_pieces before after width value)

-- The text that `itoa` returns is the shortest one.
itoa_unique :
    (value : ℕ) (str : List ℕ) → value < 2 ^ 32 → itoa value 16 ≡ ok str → numeral 16 value ≡ str
itoa_unique value str fits printed =
    ap text_of_ok (sym (itoa-numeral 16 value (omega arith) (omega arith) fits) ∙ printed)

-- A number below 2^32 that `kvprintf` prints by `%0Wx`, in the midst of text, is shown as that text
-- around a text of at least W characters that stands for the number in base 16, for W from 0 to 9.
pub kvprintf_hex :
    (before after : List ℕ) (width value : ℕ)
    → IsFormatText before
    → IsFormatText after
    → width < 10
    → value < 2 ^ 32
    → (calls : List Call) × (str : List ℕ) × (kvprintf
          (hex_format before width after)
          (int value ∷ [])
        ≡ ok calls)
      × (shown calls ≡ before ++ (str ++ after))
      × (parse 16 str ≡ value)
      × (width ≤ length str)
kvprintf_hex before after width value plain1 plain2 small fits =
    let (str, printed, means, short) = itoa_lem value 16 (omega arith) (omega arith) fits in
    let (calls, runs, shows) = kvprintf_filled before after width value plain1 plain2 small fits in
    let zeros : List ℕ = replicate (width - length str) b'0' in
    let size = length-replicate {A = ℕ} (width - length str) b'0' in
    (
      calls,
      zeros ++ str,
      runs,
      rw (itoa_unique value str fits printed) at shows,
      parse-zeros (width - length str) 16 str ∙ means,
      omega (arith, length-append zeros str, size),
    )

-- A number below 2^32 that has at most W hexadecimal digits is shown by `%0Wx`, in the midst of text, as that
-- text around exactly its last W digits, highest first, for W from 1 to 9.
pub kvprintf_hex_digits :
    (before after : List ℕ) (width value : ℕ)
    → IsFormatText before
    → IsFormatText after
    → 1 ≤ width
    → width < 10
    → value < 16 ^ width
    → value < 2 ^ 32
    → (calls : List Call) × (kvprintf (hex_format before width after) (int value ∷ []) ≡ ok calls)
      × (shown calls ≡ before ++ (digits_of 16 width value ++ after))
kvprintf_hex_digits before after width value plain1 plain2 pos small fits word =
    let (str, printed, digits) =
      itoa-digits_of 16 width value (omega arith) (omega arith) pos (omega arith) fits in
    let (calls, runs, shows) = kvprintf_filled before after width value plain1 plain2 small word in
    (calls, runs, rw digits at (rw (itoa_unique value str word printed) at shows))
