-- ===== src/Platform/Stubs/Return.antt =====
-- What the handler of an interrupt gets and where the interrupt returns to.
use aeon_486_os.Base.{
  ℕ, zero, suc, ◌*◌, ◌%◌, ◌^◌, ◌<◌, ◌≡◌, refl, List, [], ◌∷◌, ◌++◌, nonzero, Option, none, some, ok,
  arith, ◌∙◌, read,
}
use aeon_486_os.Base.{◌==◌, ◌&&◌, ◌||◌, leb, if◌then◌else◌, ap, Bool}
use aeon_486_os.Base.Word.{sub32}
use aeon_486_os.Platform.Hal.{Trace, written}
use aeon_486_os.Platform.Irq.{pic1_command, pic2_command}
use aeon_486_os.Mutex.{Mutex}
use aeon_486_os.Display.Textmode.{Screen, textmode_puts}
use aeon_486_os.Display.Textmode.Cursor.{IsOnScreen}
use aeon_486_os.Display.Log.Texts.{text_of}
use aeon_486_os.Display.Log.Lines.{free}
use aeon_486_os.Platform.Handlers.{isr_handler}
use aeon_486_os.Platform.Handlers.Acknowledged.{
  acknowledged, message_of, printer_of, isr_handler_lem,
}
use aeon_486_os.Platform.Stubs.{
  General, Frame, Cpu, Stub, isr_errcode, isr_noerrcode, interrupt, run_stub, pusha, push,
  common_entry, Registers, registers_of, Exit, returned, general_protection,
}

-- A processor with a word on its stack.
abbrev pub cpu_of : General → (ds word : ℕ) → (rest : List ℕ) → Cpu
cpu_of general ds word rest = record { general = general; ds = ds; stack = word ∷ rest }

-- The state in which `isr_handler` is called.
unfoldable pub entered : Stub → (idx : ℕ) → Frame → (error : Option ℕ) → Cpu → Cpu
entered stub idx frame error cpu = common_entry (run_stub stub idx (interrupt frame error cpu))

-- The words that the processor and the stub push before `pusha`.
abbrev pub words_pushed : Stub → Option ℕ → ℕ
words_pushed isr_errcode none = 5
words_pushed isr_errcode (some e) = 6
words_pushed isr_noerrcode none = 4
words_pushed isr_noerrcode (some e) = 5

-- `%esp` after a number of words.
unfoldable lowered : (esp n : ℕ) → ℕ
lowered esp zero = esp
lowered esp (suc n) = sub32 (lowered esp n) 4

lowered_lem : (esp n : ℕ) → esp < 2 ^ 32 → n < 2 ^ 20 → lowered esp n ≡ sub32 esp (4 * n)
unfolding lowered
lowered_lem esp zero word small = omega arith
lowered_lem esp (suc n) word small =
    let before = lowered_lem esp n word (omega arith) in rw before (omega arith)

-- The registers that are pushed, with `%esp` lowered by `n` words.
abbrev pub pushed_general : General → (n : ℕ) → General
pushed_general general n = record general { esp = sub32 general.esp (4 * n) }

pushed_general_lem :
    (general : General) (n : ℕ)
    → general.esp < 2 ^ 32
    → n < 2 ^ 20
    → (record general { esp = lowered general.esp n }) ≡ pushed_general general n
pushed_general_lem general n word small =
    ap (λ (e : ℕ). record general { esp = e }) (lowered_lem general.esp n word small)

-- What the handler gets: the number of the interrupt and the registers as they were, but for `%esp`,
-- which is lower by the words that were pushed before `pusha`.
pub registers_of-entered :
    (stub : Stub) (idx : ℕ) (frame : Frame) (error : Option ℕ) (general : General) (ds word : ℕ)
    (rest : List ℕ)
    → general.esp < 2 ^ 32
    → (regs : Registers) × (registers_of
          (entered stub idx frame error (cpu_of general ds word rest)).stack
        ≡ ok regs)
      × (regs.int_no ≡ idx)
      × (regs.general ≡ pushed_general general (words_pushed stub error))
      × (regs.ds % 2 ^ 16 ≡ ds % 2 ^ 16)
unfolding entered registers_of interrupt run_stub pusha push common_entry read lowered
registers_of-entered isr_errcode idx frame none general ds word rest fits =
    (_, refl, refl, pushed_general_lem general 5 fits (omega arith), omega arith)
registers_of-entered isr_errcode idx frame (some e) general ds word rest fits =
    (_, refl, refl, pushed_general_lem general 6 fits (omega arith), omega arith)
registers_of-entered isr_noerrcode idx frame none general ds word rest fits =
    (_, refl, refl, pushed_general_lem general 4 fits (omega arith), omega arith)
registers_of-entered isr_noerrcode idx frame (some e) general ds word rest fits =
    (_, refl, refl, pushed_general_lem general 5 fits (omega arith), omega arith)

-- Whatever the stub and the processor push: `isr_handler` gets the registers as they were, but for
-- `%esp`, which is lower by the three words, the error code if there is one, and the stub's. Where it
-- finds the mutex of `kprintf` locked, it waits for ever. Where it is free, with one display and its
-- position on the screen, it prints by its argument which interrupt of 32 bits it has got, as
-- `textmode_puts` shows it, and acknowledges the interrupt of that stub: one from 32 to 47 to the master,
-- one from 40 to 47 also to the slave, and no other.
pub interrupt_lem :
    (stub : Stub) (idx : ℕ) (frame : Frame) (error : Option ℕ) (general : General) (ds word : ℕ)
    (rest : List ℕ) (m : Mutex) (d : ℕ) (screen : Screen)
    → general.esp < 2 ^ 32
    → idx < 2 ^ 32
    → IsOnScreen screen.console
    → (regs : Registers) × (registers_of
          (entered stub idx frame error (cpu_of general ds word rest)).stack
        ≡ ok regs)
      × (regs.general ≡ pushed_general general (words_pushed stub error))
      × (trace : Trace) × (shown : Screen) × (isr_handler (printer_of m d screen) regs.int_no ≡ (
          if nonzero m.locked
          then none
          else some (
              ok (
                free d
                  (record { memory = shown.memory; console = shown.console; trace = trace })))))
      × (textmode_puts (text_of (message_of idx) ++ (0 ∷ [])) screen ≡ ok shown)
      × (written pic1_command trace ≡ acknowledged 32 47 idx (written pic1_command screen.trace))
      × (written pic2_command trace ≡ acknowledged 40 47 idx (written pic2_command screen.trace))
interrupt_lem stub idx frame error general ds word rest m d screen fits vector on =
    let (regs, reads, number, same, segment) =
      registers_of-entered stub idx frame error general ds word rest fits in
    let (trace, shown, ends, says, master, slave) = isr_handler_lem m d idx screen vector on in
    (
      regs,
      reads,
      same,
      trace,
      shown,
      ap (isr_handler (printer_of m d screen)) number ∙ ends,
      says,
      master,
      slave,
    )

module _ (idx code : ℕ) (frame : Frame) (general : General) (ds word : ℕ) (rest : List ℕ)
    (fits : general.esp < 2 ^ 32) where
  -- The processor as it was.
  abbrev as_before : Cpu
  as_before = cpu_of general (ds % 2 ^ 16) word rest

-- The vectors with which the i486 pushes an error code, but for 17, which is the alignment check.
abbrev pub is_early_code : ℕ → Bool
is_early_code idx = idx == 8 || (leb 10 idx && leb idx 14)

-- The error code that the i486 pushes with a vector.
unfoldable pub code_of : (idx code : ℕ) → Option ℕ
code_of idx code = if is_early_code idx || idx == 17 then some code else none

-- How the interrupt ends for each vector.
unfoldable pub exit_of : (idx : ℕ) → Frame → Cpu → Exit
exit_of idx frame cpu =
    if idx == 17
    then returned frame cpu
    else general_protection
        (if is_early_code idx then frame.eip % 2 ^ 16 else frame.eflags % 2 ^ 16)
