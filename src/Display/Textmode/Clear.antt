-- ===== src/Display/Textmode/Clear.antt =====
-- What `textmode_clear` leaves on the screen.
use aeon_486_os.Base.{ℕ, zero, suc, ◌+◌, ◌*◌, ◌/◌, ◌%◌, ◌≡◌, refl, arith, ◌∙◌, ◌==◌}
use aeon_486_os.Base.{ltb, leb, ◌&&◌, if◌then◌else◌}
use aeon_486_os.Klibc.Memory.{Memory, store, store16}
use aeon_486_os.Display.Textmode.{
  vga_memory, clear_row, clear_rows, textmode_clear, blank_of, Screen,
}

-- The byte of a 16-bit entry at an address: entries start at even addresses.
abbrev pub byte_at : (entry x : ℕ) → ℕ
byte_at entry x = if x % 2 == 0 then entry % 256 else entry / 256 % 256

pub store16_lem :
    (mem : Memory) (p entry x : ℕ)
    → p % 2 ≡ 0
    → store16 mem p entry x ≡ (if leb p x && ltb x (p + 2) then byte_at entry x else mem x)
unfolding store store16
store16_lem mem p entry x even = ground arith

clear_row_lem :
    (count : ℕ) (mem : Memory) (entry y k x : ℕ)
    → clear_row mem entry y count k x ≡ (
        if leb (vga_memory + y * 160 + k * 2) x && ltb x (vga_memory + y * 160 + (k + count) * 2)
        then byte_at entry x
        else mem x)
unfolding clear_row
clear_row_lem zero mem entry y k x = ground arith
clear_row_lem (suc count) mem entry y k x =
    clear_row_lem count _ entry y (k + 1) x
    ∙ ground (arith, store16_lem mem (vga_memory + (y * 2 * 80 + k * 2)) entry x (omega arith))

clear_rows_lem :
    (count : ℕ) (mem : Memory) (entry y x : ℕ)
    → clear_rows mem entry count y x ≡ (
        if leb (vga_memory + y * 160) x && ltb x (vga_memory + (y + count) * 160)
        then byte_at entry x
        else mem x)
unfolding clear_rows
clear_rows_lem zero mem entry y x = ground arith
clear_rows_lem (suc count) mem entry y x =
    clear_rows_lem count _ entry (y + 1) x ∙ ground (arith, clear_row_lem 80 mem entry y 0 x)

-- `textmode_clear` fills the 2000 entries of the screen with blanks in the colors of the console,
-- changes no other byte, and puts the console's position into the first column of the first row.
pub textmode_clear_lem :
    (s : Screen) (x : ℕ)
    → ((textmode_clear s).memory x ≡ (
        if leb vga_memory x && ltb x (vga_memory + 2000 * 2)
        then byte_at (blank_of s.console) x
        else s.memory x))
      × ((textmode_clear s).console
          ≡ record { cx = 0; cy = 0; fgcol = s.console.fgcol; bgcol = s.console.bgcol })
unfolding textmode_clear
textmode_clear_lem s x = (clear_rows_lem 25 s.memory (blank_of s.console) 0 x, refl)
