-- ===== src/Display/Tests.antt =====
-- The theorems on the display at concrete inputs.
use aeon_486_os.Base.{ℕ, ◌+◌, ◌*◌, ◌≡◌, arith, refl, inl, List, [], ◌∷◌, ◌++◌, ok, ◌%◌}
use aeon_486_os.Klibc.Memory.{Memory}
use aeon_486_os.Display.Textmode.{vga_memory, Screen, textmode_scrollup, textmode_puts}
use aeon_486_os.Display.Output.{
  int, putc, puts, kvprintf, kvprintf_from, kvprintf_round, directive, padded, width_of, next_int,
  display_register,
}
use aeon_486_os.Klibc.Strings.{strlen, strlen_from, itoa, digits_from, copy_out}
use aeon_486_os.Base.{read, fault, get_or, zero, suc, ◌<◌}
use aeon_486_os.Display.Output.Text.{IsFormatText}
use aeon_486_os.Base.{codes}
use aeon_486_os.Display.Output.{Argument, string}
use aeon_486_os.Klibc.Strings.Shortest.{numeral, significant}
use aeon_486_os.Display.Output.Format.{
  Piece, text, field, wide, letter_x, letter_s, encode, render, in_front, field_text, IsFormat,
  AllFit,
}
use aeon_486_os.Display.Output.Fields.{show_calls}
use aeon_486_os.Display.Output.Render.{kvprintf_lem}
use aeon_486_os.Display.Textmode.Scroll.{textmode_scrollup_lem}
use aeon_486_os.Display.Textmode.Cursor.{IsOnScreen, IsText, textmode_puts-IsOnScreen}
use aeon_486_os.Display.Textmode.Text.{IsPlain, at_column, shown_at, textmode_puts_lem}

-- Each byte holds the low byte of its address.
abbrev low_bytes : Memory
low_bytes = λ x. x % 256

abbrev fresh : Screen
fresh = record {
  memory = low_bytes;
  console = record { cx = 0; cy = 0; fgcol = 15; bgcol = 0 };
  trace = [];
}

-- The last row, so that the new line scrolls.
abbrev late : Screen
late = record {
  memory = low_bytes;
  console = record { cx = 3; cy = 23; fgcol = 15; bgcol = 0 };
  trace = [];
}

-- The first byte of the last row comes from behind the screen.
textmode_scrollup_lem_example :
    textmode_scrollup fresh.console low_bytes (vga_memory + 24 * 160)
    ≡ low_bytes (vga_memory + 25 * 160)
textmode_scrollup_lem_example =
    textmode_scrollup_lem fresh.console low_bytes (vga_memory + 24 * 160)

abbrev two_lines : List ℕ
two_lines = b'a' ∷ b'\n' ∷ b'b' ∷ []

two_lines-IsText : IsText two_lines
unfolding IsText
two_lines-IsText = (refl, (refl, (refl, tt)))

late-IsOnScreen : IsOnScreen late.console
late-IsOnScreen = record { column = omega arith; row = omega arith }

textmode_puts-IsOnScreen_example :
    (after : Screen) × (textmode_puts (two_lines ++ (0 ∷ [])) late ≡ ok after)
    × IsOnScreen after.console
    × (after.memory 0x1000 ≡ late.memory 0x1000)
textmode_puts-IsOnScreen_example =
    textmode_puts-IsOnScreen two_lines late 0x1000 two_lines-IsText late-IsOnScreen
      (inl (omega arith))

abbrev word : List ℕ
word = b'O' ∷ b'k' ∷ []

word-IsPlain : IsPlain word
unfolding IsPlain
word-IsPlain = (refl, refl, (refl, refl, tt))

word_bytes : (k : ℕ) → get_or word k 0 < 256
word_bytes zero = omega arith
word_bytes (suc zero) = omega arith
word_bytes (suc (suc k)) = omega arith

textmode_puts_lem_example :
    (after : Screen) × (textmode_puts (word ++ (0 ∷ [])) fresh ≡ ok after)
    × (after.console ≡ at_column fresh.console 2)
    × (after.memory 0xB8003
        ≡ shown_at word fresh.console.fgcol fresh.console.bgcol 0xB8000
            (fresh.memory 0xB8003)
            0xB8003)
textmode_puts_lem_example =
    textmode_puts_lem word fresh 0xB8003 word-IsPlain word_bytes (omega arith) (omega arith)
      (omega arith) (omega arith)

-- The color of the second letter, white on black.
second_color : shown_at word 15 0 0xB8000 0x20 0xB8003 ≡ 0x0F
unfolding shown_at
second_color = refl

-- `%08x`, as `khexdump` uses it.
abbrev before : List ℕ
before = b'a' ∷ b't' ∷ b' ' ∷ []

abbrev after : List ℕ
after = b'|' ∷ []

before-IsFormatText : IsFormatText before
unfolding IsFormatText
before-IsFormatText = (refl, refl, (refl, refl, (refl, refl, tt)))

after-IsFormatText : IsFormatText after
unfolding IsFormatText
after-IsFormatText = (refl, refl, tt)

-- The width of `%02x` stays for the `%x` behind it.
width_stays :
    kvprintf (b'%' ∷ b'0' ∷ b'2' ∷ b'x' ∷ b'%' ∷ b'x' ∷ 0 ∷ []) (int 1 ∷ int 2 ∷ [])
    ≡ ok (putc b'0' ∷ puts (b'1' ∷ []) ∷ putc b'0' ∷ puts (b'2' ∷ []) ∷ [])
unfolding kvprintf kvprintf_from kvprintf_round directive padded width_of next_int strlen
    strlen_from itoa digits_from copy_out read
width_stays = refl

-- A ninth display is stored behind the array.
ninth_display : display_register (0 ∷ 1 ∷ 2 ∷ 3 ∷ 4 ∷ 5 ∷ 6 ∷ 7 ∷ []) 8 ≡ fault
unfolding display_register
ninth_display = refl

abbrev greeting : List ℕ
greeting = b'H' ∷ b'i' ∷ b'\n' ∷ []

greeting-IsFormatText : IsFormatText greeting
unfolding IsFormatText
greeting-IsFormatText = (refl, refl, (refl, refl, (refl, refl, tt)))

greeting-IsText : IsText greeting
unfolding IsText
greeting-IsText = (refl, (refl, (refl, tt)))

-- "n=%04x %s", for 255 and "ok".
abbrev some_pieces : List Piece
some_pieces = text (codes "n=") ∷ wide 4 letter_x ∷ text (codes " ") ∷ field letter_s ∷ []

some_format : encode some_pieces ≡ codes "n=%04x %s"
unfolding encode
some_format = refl

abbrev some_arguments : List Argument
some_arguments = int 255 ∷ string (codes "ok") ∷ []

some_rendered : render some_pieces 0 some_arguments ≡ ok (codes "n=00FF ok")
unfolding render in_front field_text numeral significant
some_rendered = refl

some_pieces-IsFormat : IsFormat some_pieces
unfolding IsFormat IsFormatText
some_pieces-IsFormat = ((refl, refl, (refl, refl, tt)), (omega arith, ((refl, refl, tt), tt)))

some_arguments-AllFit : AllFit some_arguments
unfolding AllFit
some_arguments-AllFit = (omega arith, tt)

kvprintf_lem_example :
    show_calls (kvprintf (encode some_pieces ++ (0 ∷ [])) some_arguments)
    ≡ render some_pieces 0 some_arguments
kvprintf_lem_example =
    kvprintf_lem some_pieces some_arguments some_pieces-IsFormat some_arguments-AllFit
