-- ===== src/Display/Textmode/Cursor.antt =====
-- The position of the console, and the bytes that `textmode_putc` may change.
use aeon_486_os.Base.{ℕ, ◌+◌, ◌*◌, ◌≡◌, ◌<◌, ◌≤◌, refl, arith, ◌∙◌, inl, inr, ◌⊎◌, ◌==◌}
use aeon_486_os.Base.{leb, ◌||◌, Bool-cases, List, [], ◌∷◌, ◌++◌, ok, false}
use aeon_486_os.Display.Textmode.{
  vga_memory, textmode_putc, textmode_puts, wrap_line, scroll_line, put_entry, Screen, Console,
}
use aeon_486_os.Display.Textmode.Scroll.{textmode_scrollup_lem}
use aeon_486_os.Display.Textmode.Clear.{store16_lem}

-- The position lies in the first 24 rows, and its column is at most one past the row.
pub record IsOnScreen (console : Console) : Type 0 where
  pub column : console.cx ≤ 80
  pub row : console.cy < 24

-- Before scrolling the row may be one too far.
record IsWrapped (console : Console) : Type 0 where
  column : console.cx ≤ 79
  row : console.cy ≤ 24

-- Outside of the screen and of the two rows behind it.
abbrev pub IsOutside : ℕ → Type 0
IsOutside x = (x < vga_memory) ⊎ (vga_memory + 27 * 160 ≤ x)

wrap_line-IsWrapped :
    (c : ℕ) (console : Console) → IsOnScreen console → IsWrapped (wrap_line c console)
unfolding wrap_line
wrap_line-IsWrapped c console on = elim (Bool-cases (leb 80 console.cx || c == b'\n')) [
  | inl new ↦ let row = on.row in rw new (record { column = omega arith; row = omega arith })
  | inr same ↦ let row = on.row in rw same (record { column = ground arith; row = omega arith })
]

-- What scrolling keeps.
scroll_line-lem :
    (s : Screen) (x : ℕ)
    → IsWrapped s.console
    → IsOutside x
    → ((scroll_line s).console.cx ≤ 79)
      × ((scroll_line s).console.cy < 24)
      × ((scroll_line s).memory x ≡ s.memory x)
unfolding scroll_line
scroll_line-lem s x wrapped out = elim (Bool-cases (leb 24 s.console.cy)) [
  | inl bottom ↦
      let column = wrapped.column in
      let row = wrapped.row in
      rw bottom (column, ground arith, textmode_scrollup_lem s.console s.memory x ∙ ground arith)
  | inr fits ↦ let column = wrapped.column in rw fits (column, ground arith, refl)
]

put_entry-lem :
    (c : ℕ) (s : Screen) (x : ℕ)
    → s.console.cx ≤ 79
    → s.console.cy < 24
    → IsOutside x
    → IsOnScreen (put_entry c s).console × ((put_entry c s).memory x ≡ s.memory x)
unfolding put_entry
put_entry-lem c s x column row out = (
  record { column = omega arith; row = row },
  store16_lem s.memory (vga_memory + (s.console.cy * 2 * 80 + s.console.cx * 2)) _ x (omega arith)
      ∙ ground arith,
)

-- `textmode_putc` keeps the position of the console on the screen and writes nothing outside of the
-- screen and of the two rows behind it, whatever the character, if the position is on the screen.
pub textmode_putc-IsOnScreen :
    (c : ℕ) (s : Screen) (x : ℕ)
    → IsOnScreen s.console
    → IsOutside x
    → IsOnScreen (textmode_putc c s).console × ((textmode_putc c s).memory x ≡ s.memory x)
unfolding textmode_putc
textmode_putc-IsOnScreen c s x on out =
    let wrapped : Screen = record {
      memory = s.memory;
      console = wrap_line c s.console;
      trace = s.trace;
    } in
    let wraps = wrap_line-IsWrapped c s.console on in
    let (column, row, kept) = scroll_line-lem wrapped x wraps out in
    let (shown, stored) = put_entry-lem c (scroll_line wrapped) x column row out in
    elim (Bool-cases (c == 0)) [
      | inl nul ↦ rw nul (on, refl)
      | inr char ↦ elim (Bool-cases (c == b'\n')) [
        | inl new ↦ rw (char, new) (record { column = omega arith; row = row }, kept)
        | inr other ↦ rw (char, other) (shown, stored ∙ kept)
      ]
    ]

-- The characters of a C string, without its 0.
unfoldable pub IsText : List ℕ → Type 0
IsText [] = Unit
IsText (c ∷ cs) = ((c == 0) ≡ false) × IsText cs

-- `textmode_puts` of a string that ends with 0 ends, with the position on the screen, and writes
-- nothing outside of the screen and of the two rows behind it, if the position was on the screen.
pub textmode_puts-IsOnScreen :
    (text : List ℕ) (screen : Screen) (x : ℕ)
    → IsText text
    → IsOnScreen screen.console
    → IsOutside x
    → (after : Screen) × (textmode_puts (text ++ (0 ∷ [])) screen ≡ ok after)
      × IsOnScreen after.console
      × (after.memory x ≡ screen.memory x)
unfolding textmode_puts IsText
textmode_puts-IsOnScreen [] screen x chars on out = (screen, refl, on, refl)
textmode_puts-IsOnScreen (c ∷ text) screen x (char, chars) on out =
    let (on_next, kept) = textmode_putc-IsOnScreen c screen x on out in
    let (after, runs, shown, same) =
      textmode_puts-IsOnScreen text (textmode_putc c screen) x chars on_next out in
    (after, rw char runs, shown, same ∙ kept)
