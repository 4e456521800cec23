-- ===== src/Display/Textmode/Cells.antt =====
-- The two bytes of an entry on the screen.
use aeon_486_os.Base.{ℕ, ◌+◌, ◌*◌, ◌/◌, ◌%◌, ◌^◌, ◌≡◌, ◌<◌, refl, arith, ◌∙◌, inl, inr, true, ◌==◌}
use aeon_486_os.Base.{
  leb, if◌then◌else◌, bit_or, Bool-cases, all_below, all_below_sound, ==→eq, ap, ap₂,
}
use aeon_486_os.Base.Word.Low.{bit_or-low}
use aeon_486_os.Base.Word.Masks.{bit_or-lt, div-bit_or, bit_or_fields}
use aeon_486_os.Display.Textmode.{textmode_create_entry, textmode_make_color}

full_byte : all_below 256 (λ color. bit_or 0xFF color == 0xFF) ≡ true
unfolding all_below
full_byte = refl

bit_or-full : (color : ℕ) → color < 256 → bit_or 0xFF color ≡ 0xFF
bit_or-full color h =
    ==→eq _ 0xFF (all_below_sound 256 (λ x. bit_or 0xFF x == 0xFF) color full_byte h)

entry_bytes :
    (wide color : ℕ)
    → wide < 2 ^ 16
    → color < 256
    → (bit_or wide (color * 2 ^ 8) % 2 ^ 16 % 256 ≡ wide % 256)
      × (bit_or wide (color * 2 ^ 8) % 2 ^ 16 / 256 ≡ bit_or (wide / 2 ^ 8) color)
entry_bytes wide color fits small =
    let bound = bit_or-lt 16 wide (color * 2 ^ 8) fits (omega arith) in
    let back : color * 2 ^ 8 / 2 ^ 8 ≡ color = omega arith in
    let high = div-bit_or 8 wide (color * 2 ^ 8) ∙ ap (λ t. bit_or (wide / 2 ^ 8) t) back in
    (omega (arith, bound, bit_or-low 8 wide color), omega (arith, bound, high))

-- The low byte of an entry is the character. The high byte is the color for a character below 128,
-- and 0xFF whatever the color for a character from 128 on.
pub textmode_create_entry_lem :
    (c color : ℕ)
    → c < 256
    → color < 256
    → (textmode_create_entry c color % 256 ≡ c)
      × (textmode_create_entry c color / 256 ≡ (if leb 128 c then 0xFF else color))
unfolding textmode_create_entry
textmode_create_entry_lem c color char small = elim (Bool-cases (leb 128 c)) [
  | inl high ↦
      let (low_byte, high_byte) = entry_bytes (c + 0xFF00) color (omega arith) small in
      let sign : (c + 0xFF00) / 2 ^ 8 ≡ 0xFF = omega arith in
      let ones = ap (λ t. bit_or t color) sign ∙ bit_or-full color small in
      rw high (omega (arith, low_byte), high_byte ∙ ones)
  | inr low ↦
      let fits : c < 128 = ground arith in
      let (low_byte, high_byte) = entry_bytes c color (omega arith) small in
      let none : c / 2 ^ 8 ≡ 0 = omega arith in
      let fields = bit_or_fields 8 0 color (omega arith) in
      let same = ap (λ t. bit_or t color) none in
      rw low (omega (arith, low_byte), omega (arith, high_byte, same, fields))
]

-- A color is the foreground in the low four bits and the background in the high four.
pub textmode_make_color_lem :
    (fg bg : ℕ) → fg < 16 → bg < 16 → textmode_make_color fg bg ≡ fg + bg * 16
unfolding textmode_make_color
textmode_make_color_lem fg bg fore back =
    let high = div-bit_or 4 fg (bg * 2 ^ 4) in
    let none : fg / 2 ^ 4 ≡ 0 = omega arith in
    let shifted : bg * 2 ^ 4 / 2 ^ 4 ≡ bg = omega arith in
    let top = high ∙ ap₂ (λ (a b : ℕ). bit_or a b) none shifted in
    omega (arith, top, bit_or-low 4 fg bg, bit_or_fields 8 0 bg (omega arith))
