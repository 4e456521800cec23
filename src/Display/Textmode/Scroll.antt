-- ===== src/Display/Textmode/Scroll.antt =====
-- What `textmode_scrollup` leaves on the screen.
use aeon_486_os.Base.{
  ℕ, zero, suc, ◌+◌, ◌-◌, ◌*◌, ◌/◌, ◌%◌, ◌≡◌, ◌<◌, ◌≤◌, arith, ◌∙◌, inl, inr, ◌==◌,
}
use aeon_486_os.Base.{ltb, leb, ◌&&◌, if◌then◌else◌, Bool-cases, ap, sym}
use aeon_486_os.Klibc.Memory.{Memory, memcpy}
use aeon_486_os.Klibc.Memory.Copy.{memcpy-IsCopied, IsCopied}
use aeon_486_os.Klibc.Memory.Fill.{memset16_lem}
use aeon_486_os.Display.Textmode.{
  vga_memory, scroll_rows, textmode_scrollup, textmode_width, Console, blank_of,
}

-- A copy by tests on the address.
copy_row :
    (mem : Memory) (dest n x : ℕ)
    → memcpy mem dest (dest + n) n x
      ≡ (if leb dest x && ltb x (dest + n) then mem (x + n) else mem x)
copy_row mem dest n x = elim (Bool-cases (leb dest x && ltb x (dest + n))) [
  | inl inside ↦
      let low : dest ≤ x = ground arith in
      let high : x < dest + n = ground arith in
      let place : dest + (x - dest) ≡ x = omega arith in
      let from : dest + n + (x - dest) ≡ x + n = omega arith in
      rw inside (sym (ap after place) ∙ copied.inside (x - dest) (omega arith) ∙ ap mem from)
  | inr outside ↦ rw outside (copied.outside x (ground arith))
]
  where
    after : Memory
    after = memcpy mem dest (dest + n) n

    copied : IsCopied mem (memcpy mem dest (dest + n) n) dest (dest + n) n
    copied = memcpy-IsCopied mem dest (dest + n) n (inl (omega arith))

scroll_row :
    (mem : Memory) (y x : ℕ)
    → memcpy mem
        (vga_memory + y * textmode_width * 2)
        (vga_memory + (y + 1) * textmode_width * 2)
        (textmode_width * 2)
        x
      ≡ (if leb (vga_memory + y * 160) x && ltb x (vga_memory + (y + 1) * 160)
          then mem (x + 160)
          else mem x)
scroll_row mem y x =
    let here : vga_memory + y * textmode_width * 2 ≡ vga_memory + y * 160 = omega arith in
    let below : vga_memory + (y + 1) * textmode_width * 2 ≡ vga_memory + y * 160 + 160 =
      omega arith in
    let limit : vga_memory + (y + 1) * 160 ≡ vga_memory + y * 160 + 160 = omega arith in
    rw (here, below, limit) (copy_row mem (vga_memory + y * 160) 160 x)

scroll_rows_lem :
    (count : ℕ) (mem : Memory) (y x : ℕ)
    → scroll_rows mem count y x ≡ (
        if leb (vga_memory + y * 160) x && ltb x (vga_memory + (y + count) * 160)
        then mem (x + 160)
        else mem x)
unfolding scroll_rows
scroll_rows_lem zero mem y x = ground arith
scroll_rows_lem (suc count) mem y x =
    scroll_rows_lem count _ (y + 1) x
    ∙ ground (arith, scroll_row mem y x, scroll_row mem y (x + 160))

-- `textmode_scrollup` moves the 25 rows up by one, so that the last row takes what lies behind the
-- screen, then fills the two rows behind the screen with blanks, and changes no other byte.
pub textmode_scrollup_lem :
    (console : Console) (mem : Memory) (x : ℕ)
    → textmode_scrollup console mem x ≡ (
        if leb vga_memory x && ltb x (vga_memory + 25 * 160)
        then mem (x + 160)
        else if leb (vga_memory + 25 * 160) x && ltb x (vga_memory + 27 * 160)
        then if (x - (vga_memory + 25 * 160)) % 2 == 0
          then blank_of console % 256
          else blank_of console / 256 % 256
        else mem x)
unfolding textmode_scrollup
textmode_scrollup_lem console mem x =
    memset16_lem (scroll_rows mem 25 0) (vga_memory + 25 * 80 * 2) (blank_of console) 160 x
    ∙ ground (arith, scroll_rows_lem 25 mem 0 x)
