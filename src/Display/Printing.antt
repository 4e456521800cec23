-- ===== src/Display/Printing.antt =====
-- `kprintf` and `kvprintf` of display.c with their mutex, on the registered displays. The only display
-- of the kernel is the text screen, whose state is one global variable, so that every registered
-- display is that screen.
pub mod Whole
use aeon_486_os.Base.{ℕ, List, [], ◌∷◌, ◌++◌, Option, none, some, Outcome, ok, ◌>>=◌}
use aeon_486_os.Mutex.{Mutex, mutex_lock, mutex_unlock}
use aeon_486_os.Display.Output.{Argument, Call, putc, puts, kvprintf}
use aeon_486_os.Display.Textmode.{Screen, textmode_putc, textmode_puts}

-- The calls on a display. A string argument stands without its 0.
unfoldable pub call_screen : Call → Screen → Outcome Screen
call_screen (putc c) screen = ok (textmode_putc c screen)
call_screen (puts s) screen = textmode_puts (s ++ (0 ∷ [])) screen

-- The loops of `display_puts` and `display_putc`.
unfoldable pub call_displays : List ℕ → Call → Screen → Outcome Screen
call_displays [] call screen = ok screen
call_displays (d ∷ s_displays) call screen = do
  next ← call_screen call screen
  call_displays s_displays call next

unfoldable pub call_all : List ℕ → List Call → Screen → Outcome Screen
call_all s_displays [] screen = ok screen
call_all s_displays (call ∷ calls) screen = do
  next ← call_displays s_displays call screen
  call_all s_displays calls next

pub record Printer : Type 0 where
  pub m_kprintf : Mutex
  pub s_displays : List ℕ
  pub screen : Screen

-- The body between the lock and the unlock.
unfoldable pub print_locked : Printer → (fmt : List ℕ) → List Argument → Outcome Printer
print_locked printer fmt ap = do
  calls ← kvprintf fmt ap
  screen ← call_all printer.s_displays calls printer.screen
  ok (record printer { m_kprintf = mutex_unlock printer.m_kprintf; screen = screen })

-- `none` is a caller that waits for the mutex for ever.
unfoldable pub kprintf : Printer → (fmt : List ℕ) → List Argument → Option (Outcome Printer)
kprintf printer fmt ap = elim (mutex_lock printer.m_kprintf) [
  | none ↦ none
  | some m ↦ some (print_locked (record printer { m_kprintf = m }) fmt ap)
]
