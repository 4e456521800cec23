-- ===== src/Display/Textmode/Text.antt =====
-- What `textmode_puts` puts on the screen, and where it leaves the cursor.
use aeon_486_os.Base.{ℕ, suc, ◌+◌, ◌-◌, ◌*◌, ◌/◌, ◌%◌, ◌^◌, ◌≡◌, ◌<◌, ◌≤◌, refl, arith, ◌∙◌, ◌==◌}
use aeon_486_os.Base.{
  ltb, leb, ◌&&◌, if◌then◌else◌, List, [], ◌∷◌, ◌++◌, ok, false, length, get_or, ap, dec_lt,
  Bool-cases, inl, inr,
}
use aeon_486_os.Display.Textmode.{
  vga_memory, textmode_putc, textmode_puts, wrap_line, scroll_line, put_entry, Screen, Console,
  textmode_create_entry, textmode_make_color,
}
use aeon_486_os.Display.Textmode.Cells.{textmode_create_entry_lem, textmode_make_color_lem}
use aeon_486_os.Display.Textmode.Clear.{store16_lem, byte_at}

-- Characters that are neither a 0 nor a new line.
unfoldable pub IsPlain : List ℕ → Type 0
IsPlain [] = Unit
IsPlain (c ∷ cs) = ((c == 0) ≡ false) × ((c == b'\n') ≡ false) × IsPlain cs

-- The address of the entry at the position of the console.
abbrev pub place_of : Console → ℕ
place_of console = vga_memory + (console.cy * 160 + console.cx * 2)

abbrev pub color_of : Console → ℕ
color_of console = textmode_make_color console.fgcol console.bgcol

-- Inside of a row a plain character is stored without a new line and without scrolling.
textmode_putc-plain :
    (c : ℕ) (s : Screen)
    → (c == 0) ≡ false
    → (c == b'\n') ≡ false
    → s.console.cx < 80
    → s.console.cy < 24
    → textmode_putc c s ≡ put_entry c s
unfolding textmode_putc wrap_line scroll_line
textmode_putc-plain c s char other column row =
    let full : leb 80 s.console.cx ≡ false = ground arith in
    let bottom : leb 24 s.console.cy ≡ false = ground arith in rw (char, other, full, bottom) refl

abbrev pub at_column : Console → ℕ → Console
at_column console x = record console { cx = x }

-- What storing a character does to a screen whose console is known.
put_entry_lem :
    (c : ℕ) (s : Screen) (console : Console) (x : ℕ)
    → s.console ≡ console
    → console.cx < 80
    → ((put_entry c s).console ≡ at_column console (console.cx + 1))
      × ((put_entry c s).memory x ≡ (
          if leb (place_of console) x && ltb x (place_of console + 2)
          then byte_at (textmode_create_entry c (color_of console)) x
          else s.memory x))
unfolding put_entry
put_entry_lem c s console x known column =
    let right : (console.cx + 1) % 2 ^ 16 ≡ console.cx + 1 = omega arith in
    let place : vga_memory + (console.cy * 2 * 80 + console.cx * 2) ≡ place_of console =
      omega arith in
    rw (known, place)
      (
        ap (at_column console) right,
        store16_lem s.memory (place_of console) (textmode_create_entry c (color_of console)) x
            (omega arith),
      )

-- The bytes that a text takes from `start` on.
abbrev pub entries_at : (text : List ℕ) (color start before x : ℕ) → ℕ
entries_at text color start before x =
    if leb start x && ltb x (start + length text * 2)
    then byte_at (textmode_create_entry (get_or text ((x - start) / 2) 0) color) x
    else before

entries_at-suc :
    (c : ℕ) (text : List ℕ) (color start before x : ℕ)
    → entries_at text color
        (start + 2)
        (if leb start x && ltb x (start + 2)
          then byte_at (textmode_create_entry c color) x
          else before)
        x
      ≡ entries_at (c ∷ text) color start before x
entries_at-suc c text color start before x = elim (dec_lt x (start + 2)) [
  | yes near ↦ let first : (x - start) / 2 ≡ 0 = omega arith in rw first (ground arith)
  | no far ↦
      let next : (x - start) / 2 ≡ suc ((x - (start + 2)) / 2) = omega arith in
      rw next (ground arith)
]

puts_shown :
    (text : List ℕ) (screen : Screen) (console : Console) (x : ℕ)
    → screen.console ≡ console
    → IsPlain text
    → console.cx + length text ≤ 80
    → console.cy < 24
    → (after : Screen) × (textmode_puts (text ++ (0 ∷ [])) screen ≡ ok after)
      × (after.console ≡ at_column console (console.cx + length text))
      × (after.memory x ≡ entries_at text (color_of console) (place_of console) (screen.memory x) x)
unfolding textmode_puts IsPlain
puts_shown [] screen console x known plain room row =
    let here : console.cx ≡ console.cx + 0 = omega arith in
    (screen, refl, known ∙ ap (at_column console) here, ground arith)
puts_shown (c ∷ text) screen console x known (char, other, plain) room row =
    let left : screen.console.cx < 80 = rw known (omega arith) in
    let high : screen.console.cy < 24 = rw known row in
    let put = textmode_putc-plain c screen char other left high in
    let (stays, stored) = put_entry_lem c screen console x known (omega arith) in
    let next = at_column console (console.cx + 1) in
    let (after, runs, moved, shown) =
      puts_shown text (put_entry c screen) next x stays plain (omega arith) row in
    let place : place_of next ≡ place_of console + 2 = omega arith in
    let columns : console.cx + 1 + length text ≡ console.cx + suc (length text) = omega arith in
    (
      after,
      rw (char, put) runs,
      moved ∙ ap (at_column console) columns,
      shown
          ∙ rw (place, stored)
              (entries_at-suc c text (color_of console) (place_of console) (screen.memory x) x),
    )

-- The byte at an even or odd distance in a text of letters: the letter itself, or its color, which is
-- 0xFF for a letter from 128 on.
abbrev pub letter_byte : (letter fg bg k : ℕ) → ℕ
letter_byte letter fg bg k =
    if k % 2 == 0 then letter else if leb 128 letter then 0xFF else fg + bg * 16

-- The byte at `x` once a text is shown from `start` on, with `before` at `x` before.
unfoldable pub shown_at : (text : List ℕ) (fg bg start before x : ℕ) → ℕ
shown_at text fg bg start before x =
    if leb start x && ltb x (start + length text * 2)
    then letter_byte (get_or text ((x - start) / 2) 0) fg bg (x - start)
    else before

byte_at-entry :
    (c fg bg x k : ℕ)
    → c < 256
    → fg < 16
    → bg < 16
    → x % 2 ≡ k % 2
    → byte_at (textmode_create_entry c (textmode_make_color fg bg)) x ≡ letter_byte c fg bg k
byte_at-entry c fg bg x k char fore back parity =
    let color = textmode_make_color_lem fg bg fore back in
    let (low, high) = textmode_create_entry_lem c (fg + bg * 16) char (omega arith) in
    rw color (ground (arith, low, high))

entries_at_lem :
    (text : List ℕ) (console : Console) (before x : ℕ)
    → ((k : ℕ) → get_or text k 0 < 256)
    → console.fgcol < 16
    → console.bgcol < 16
    → entries_at text (color_of console) (place_of console) before x
      ≡ shown_at text console.fgcol console.bgcol (place_of console) before x
unfolding shown_at
entries_at_lem text console before x bytes fore back =
    elim (Bool-cases (leb (place_of console) x && ltb x (place_of console + length text * 2))) [
      | inl inside ↦
          let from : place_of console ≤ x = ground arith in
          rw inside (
            byte_at-entry (get_or text ((x - place_of console) / 2) 0) console.fgcol console.bgcol x
              (x - place_of console) (bytes ((x - place_of console) / 2)) fore back (omega arith))
      | inr outside ↦ rw outside refl
    ]

-- A text of bytes without a 0 and a new line that fits into the rest of its row, with colors below 16:
-- from the position of the console on, each even byte is a letter of the text, and the odd byte behind
-- it is the foreground in its low and the background in its high four bits for a letter below 128, and
-- 0xFF for a letter from 128 on. No other byte changes, and the position moves behind the text.
pub textmode_puts_lem :
    (text : List ℕ) (screen : Screen) (x : ℕ)
    → IsPlain text
    → ((k : ℕ) → get_or text k 0 < 256)
    → screen.console.fgcol < 16
    → screen.console.bgcol < 16
    → screen.console.cx + length text ≤ 80
    → screen.console.cy < 24
    → (after : Screen) × (textmode_puts (text ++ (0 ∷ [])) screen ≡ ok after)
      × (after.console ≡ at_column screen.console (screen.console.cx + length text))
      × (after.memory x
          ≡ shown_at text screen.console.fgcol screen.console.bgcol
              (0xB8000 + (screen.console.cy * 80 + screen.console.cx) * 2)
              (screen.memory x)
              x)
textmode_puts_lem text screen x plain bytes fore back room row =
    let (after, runs, moved, shown) = puts_shown text screen screen.console x refl plain room row in
    let place : place_of screen.console
        ≡ 0xB8000 + (screen.console.cy * 80 + screen.console.cx) * 2 =
      omega arith in
    (
      after,
      runs,
      moved,
      shown
          ∙ entries_at_lem text screen.console (screen.memory x) x bytes fore back
          ∙ ap
              (λ (start : ℕ).
                shown_at text screen.console.fgcol screen.console.bgcol start (screen.memory x) x)
              place,
    )
