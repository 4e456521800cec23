-- ===== src/Display/Textmode.antt =====
-- kernel/drivers/display/textmode.c and textmode.h. The state is the memory with the 80 columns and
-- 25 rows of the screen at 0xB8000, the console of `display`, and what the ports were given. The
-- function pointers of `display` never change. A character is its byte, and `char` has a sign.
pub mod Cells
pub mod Scroll
pub mod Clear
pub mod Cursor
pub mod Text
pub mod Ports
use aeon_486_os.Base.{ℕ, zero, suc, ◌+◌, ◌-◌, ◌*◌, ◌/◌, ◌%◌, ◌^◌, List, [], ◌∷◌}
use aeon_486_os.Base.{◌||◌, ltb, leb, ◌==◌, if◌then◌else◌, Outcome, ok, fault, bit_and, bit_or}
use aeon_486_os.Base.Word.{shr}
use aeon_486_os.Klibc.Memory.{Memory, store16, memcpy, memset16}
use aeon_486_os.Platform.Hal.{Trace, outportb}

abbrev pub vga_memory : ℕ
vga_memory = 0xB8000

abbrev pub textmode_width : ℕ
textmode_width = 80

abbrev pub textmode_height : ℕ
textmode_height = 25

abbrev pub color_black : ℕ
color_black = 0

abbrev pub color_white : ℕ
color_white = 15

pub record Console : Type 0 where
  pub cx : ℕ
  pub cy : ℕ
  pub fgcol : ℕ
  pub bgcol : ℕ

pub record Screen : Type 0 where
  pub memory : Memory
  pub console : Console
  pub trace : Trace

unfoldable pub textmode_make_color : (fg bg : ℕ) → ℕ
textmode_make_color fg bg = bit_or fg (bg * 2 ^ 4) % 2 ^ 8

-- The cast of a `char` to 16 bits repeats its sign.
unfoldable pub textmode_create_entry : (c color : ℕ) → ℕ
textmode_create_entry c color =
    let _char = if leb 128 c then c + 0xFF00 else c in bit_or _char (color * 2 ^ 8) % 2 ^ 16

-- A blank in the colors of the console.
abbrev pub blank_of : Console → ℕ
blank_of console = textmode_create_entry b' ' (textmode_make_color console.fgcol console.bgcol)

-- The loop of `textmode_scrollup` at row `y`.
unfoldable pub scroll_rows : Memory → (count y : ℕ) → Memory
scroll_rows mem zero y = mem
scroll_rows mem (suc count) y =
    scroll_rows
      (memcpy mem (vga_memory + y * textmode_width * 2) (vga_memory + (y + 1) * textmode_width * 2)
        (textmode_width * 2))
      count (y + 1)

unfoldable pub textmode_scrollup : Console → Memory → Memory
textmode_scrollup console mem =
    memset16 (scroll_rows mem textmode_height 0) (vga_memory + textmode_height * textmode_width * 2)
      (blank_of console) (textmode_width * 2)

-- The inner loop of `textmode_clear` at column `x` of row `y`.
unfoldable pub clear_row : Memory → (entry y count x : ℕ) → Memory
clear_row mem entry y zero x = mem
clear_row mem entry y (suc count) x =
    clear_row (store16 mem (vga_memory + (y * 2 * textmode_width + x * 2)) entry) entry y count
      (x + 1)

-- The outer loop at row `y`.
unfoldable pub clear_rows : Memory → (entry count y : ℕ) → Memory
clear_rows mem entry zero y = mem
clear_rows mem entry (suc count) y =
    clear_rows (clear_row mem entry y textmode_width 0) entry count (y + 1)

unfoldable pub textmode_clear : Screen → Screen
textmode_clear s = record {
  memory = clear_rows s.memory (blank_of s.console) textmode_height 0;
  console = record { cx = 0; cy = 0; fgcol = s.console.fgcol; bgcol = s.console.bgcol };
  trace = s.trace;
}

unfoldable pub textmode_update_cursor : Trace → (x y : ℕ) → Trace
textmode_update_cursor trace x y =
    let pos = (y * textmode_width + x) % 2 ^ 16 in
    let select_low = outportb trace 0x3D4 0x0F in
    let low = outportb select_low 0x3D5 (bit_and pos 0xFF) in
    let select_high = outportb low 0x3D4 0x0E in
    outportb select_high 0x3D5 (bit_and (shr pos 8) 0xFF)

-- The first two tests of `textmode_putc`: a new line, and scrolling.
unfoldable pub wrap_line : ℕ → Console → Console
wrap_line c console =
    if leb textmode_width console.cx || c == b'\n'
    then record {
      cx = 0;
      cy = (console.cy + 1) % 2 ^ 16;
      fgcol = console.fgcol;
      bgcol = console.bgcol;
    }
    else console

unfoldable pub scroll_line : Screen → Screen
scroll_line s =
    if leb (textmode_height - 1) s.console.cy
    then record {
      memory = textmode_scrollup s.console s.memory;
      console = record {
        cx = s.console.cx;
        cy = (s.console.cy + 2 ^ 16 - 1) % 2 ^ 16;
        fgcol = s.console.fgcol;
        bgcol = s.console.bgcol;
      };
      trace = s.trace;
    }
    else s

-- The rest of it, which stores the character and moves the cursor.
unfoldable pub put_entry : ℕ → Screen → Screen
put_entry c s =
    let index = s.console.cy * 2 * textmode_width + s.console.cx * 2 in
    let color = textmode_make_color s.console.fgcol s.console.bgcol in
    let cx = (s.console.cx + 1) % 2 ^ 16 in
    record {
      memory = store16 s.memory (vga_memory + index) (textmode_create_entry c color);
      console = record {
        cx = cx;
        cy = s.console.cy;
        fgcol = s.console.fgcol;
        bgcol = s.console.bgcol;
      };
      trace = textmode_update_cursor s.trace cx s.console.cy;
    }

unfoldable pub textmode_putc : ℕ → Screen → Screen
textmode_putc c s =
    let wrapped : Screen = record {
      memory = s.memory;
      console = wrap_line c s.console;
      trace = s.trace;
    } in
    let scrolled = scroll_line wrapped in
    if c == 0 then s else if c == b'\n' then scrolled else put_entry c scrolled

-- A string without a 0 is read behind its end.
unfoldable pub textmode_puts : List ℕ → Screen → Outcome Screen
textmode_puts [] screen = fault
textmode_puts (c ∷ s) screen =
    if c == 0 then ok screen else textmode_puts s (textmode_putc c screen)

unfoldable pub textmode_init : Memory → Trace → Screen
textmode_init mem trace = record {
  memory = mem;
  console = record { cx = 0; cy = 0; fgcol = color_white; bgcol = color_black };
  trace = trace;
}
