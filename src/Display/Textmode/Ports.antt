-- ===== src/Display/Textmode/Ports.antt =====
-- The ports that the text screen writes: the two of the cursor.
use aeon_486_os.Base.{
  ap, ℕ, ◌≡◌, ◌∙◌, refl, List, [], ◌∷◌, ok, false, ◌==◌, Bool-cases, inl, inr, leb,
}
use aeon_486_os.Base.{◌+◌, ◌*◌, ◌/◌, ◌%◌, ◌^◌, ◌<◌, bit_and, arith}
use aeon_486_os.Base.Word.Masks.{bit_and_low}
use aeon_486_os.Platform.Hal.{Trace, written, outportb}
use aeon_486_os.Display.Textmode.{
  textmode_putc, textmode_puts, textmode_update_cursor, wrap_line, scroll_line, put_entry, Screen,
}

-- Neither of the two ports of the cursor.
pub record IsNotCursor (port : ℕ) : Type 0 where
  pub not_index : (0x3D4 == port) ≡ false
  pub not_data : (0x3D5 == port) ≡ false

written-textmode_update_cursor :
    (port : ℕ) (trace : Trace) (x y : ℕ)
    → IsNotCursor port
    → written port (textmode_update_cursor trace x y) ≡ written port trace
unfolding textmode_update_cursor written outportb
written-textmode_update_cursor port trace x y other = rw (other.not_index, other.not_data) refl

trace-scroll_line : (s : Screen) → (scroll_line s).trace ≡ s.trace
unfolding scroll_line
trace-scroll_line s = elim (Bool-cases (leb 24 s.console.cy)) [
  | inl bottom ↦ rw bottom refl
  | inr fits ↦ rw fits refl
]

written-put_entry :
    (port c : ℕ) (s : Screen)
    → IsNotCursor port
    → written port (put_entry c s).trace ≡ written port s.trace
unfolding put_entry
written-put_entry port c s other = written-textmode_update_cursor port s.trace _ s.console.cy other

written-textmode_putc :
    (port c : ℕ) (s : Screen)
    → IsNotCursor port
    → written port (textmode_putc c s).trace ≡ written port s.trace
unfolding textmode_putc
written-textmode_putc port c s other =
    let wrapped : Screen = record {
      memory = s.memory;
      console = wrap_line c s.console;
      trace = s.trace;
    } in
    let scrolled = ap (λ (t : Trace). written port t) (trace-scroll_line wrapped) in
    elim (Bool-cases (c == 0)) [
      | inl nul ↦ rw nul refl
      | inr char ↦ elim (Bool-cases (c == b'\n')) [
        | inl new ↦ rw (char, new) scrolled
        | inr letter ↦
            rw (char, letter) (written-put_entry port c (scroll_line wrapped) other ∙ scrolled)
      ]
    ]

-- A text reaches no port but those of the cursor.
pub written-textmode_puts :
    (port : ℕ) (text : List ℕ) (screen : Screen) {after : Screen}
    → IsNotCursor port
    → textmode_puts text screen ≡ ok after
    → written port after.trace ≡ written port screen.trace
unfolding textmode_puts
written-textmode_puts port [] screen other ends = absurd (cc)
written-textmode_puts port (c ∷ text) screen {after} other ends = elim (Bool-cases (c == 0)) [
  | inl nul ↦ let same : ok screen ≡ ok after = rw nul at ends in cc
  | inr char ↦
      let rest : textmode_puts text (textmode_putc c screen) ≡ ok after = rw char at ends in
      written-textmode_puts port text (textmode_putc c screen) other rest
      ∙ written-textmode_putc port c screen other
]

-- The two values that set the cursor name the position, high byte first, and each follows the
-- number of its register.
pub textmode_update_cursor_lem :
    (trace : Trace) (x y : ℕ)
    → y * 80 + x < 2 ^ 16
    → (high low : ℕ) × (written 0x3D5 (textmode_update_cursor trace x y)
        ≡ high ∷ low ∷ written 0x3D5 trace)
      × (written 0x3D4 (textmode_update_cursor trace x y) ≡ 0x0E ∷ 0x0F ∷ written 0x3D4 trace)
      × (high * 256 + low ≡ y * 80 + x)
unfolding textmode_update_cursor written outportb
textmode_update_cursor_lem trace x y fits = (
  bit_and ((y * 80 + x) % 2 ^ 16 / 2 ^ 8) 0xFF % 2 ^ 8,
  bit_and ((y * 80 + x) % 2 ^ 16) 0xFF % 2 ^ 8,
  refl,
  refl,
  omega
      (arith, bit_and_low 8 ((y * 80 + x) % 2 ^ 16), bit_and_low 8 ((y * 80 + x) % 2 ^ 16 / 2 ^ 8)),
)
