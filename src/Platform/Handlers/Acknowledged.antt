-- ===== src/Platform/Handlers/Acknowledged.antt =====
-- What the handlers print, and what reaches the two interrupt controllers.
use aeon_486_os.Base.{
  ℕ, ◌-◌, ◌^◌, ◌<◌, ◌≡◌, ◌∙◌, ap, refl, arith, List, [], ◌∷◌, ◌++◌, leb, ◌&&◌, if◌then◌else◌, none,
  some, ok, nonzero, Bool-cases, inl, inr, true, false,
}
use aeon_486_os.Mutex.{Mutex, mutex_lock}
use aeon_486_os.Platform.Hal.{Trace, Message, written, outportb}
use aeon_486_os.Platform.Irq.{pic_send_eoi, pic1_command, pic2_command}
use aeon_486_os.Platform.Handlers.{send_eoi, irq_handler, isr_handler}
use aeon_486_os.Display.Output.{Argument}
use aeon_486_os.Display.Textmode.{Screen, textmode_puts}
use aeon_486_os.Display.Textmode.Cursor.{IsOnScreen}
use aeon_486_os.Display.Textmode.Ports.{IsNotCursor, written-textmode_puts}
use aeon_486_os.Display.Output.Format.{AllFit}
use aeon_486_os.Display.Printing.{Printer, kprintf}
use aeon_486_os.Display.Log.{format_of, arguments_of}
use aeon_486_os.Display.Log.Texts.{text_of}
use aeon_486_os.Display.Log.Lines.{free, kprintf-message}

-- One display, and the mutex as it is.
abbrev pub printer_of : Mutex → (d : ℕ) → Screen → Printer
printer_of m d screen = record { m_kprintf = m; s_displays = d ∷ []; screen = screen }

-- The values that a handler adds to those written to a port.
abbrev pub acknowledged : ℕ → ℕ → ℕ → List ℕ → List ℕ
acknowledged first last int_no before =
    if leb first int_no && leb int_no last then 0x20 ∷ before else before

-- What a handler says.
abbrev pub message_of : ℕ → Message
message_of int_no =
    if leb 32 int_no && leb int_no 47
    then Message.received_irq (int_no - 32)
    else Message.received_interrupt int_no

kprintf-locked :
    (printer : Printer) (fmt : List ℕ) (arguments : List Argument)
    → nonzero printer.m_kprintf.locked ≡ true
    → kprintf printer fmt arguments ≡ none
unfolding kprintf mutex_lock
kprintf-locked printer fmt arguments locked = ground arith

-- A handler waits for ever for a locked mutex.
isr_handler-locked :
    (printer : Printer) (int_no : ℕ)
    → nonzero printer.m_kprintf.locked ≡ true
    → isr_handler printer int_no ≡ none
unfolding isr_handler irq_handler
isr_handler-locked printer int_no locked = elim (Bool-cases (leb 32 int_no && leb int_no 47)) [
  | inl irq ↦ rw (irq, kprintf-locked printer _ _ locked) refl
  | inr other ↦ rw (other, kprintf-locked printer _ _ locked) refl
]

-- What a handler leaves.
record IsHandled (d int_no : ℕ) (screen : Screen) (trace : Trace) (shown : Screen) : Type 0 where
  says : textmode_puts (text_of (message_of int_no) ++ (0 ∷ [])) screen ≡ ok shown
  ends :
      isr_handler (free d screen) int_no
      ≡ some
          (ok (free d (record { memory = shown.memory; console = shown.console; trace = trace })))
  master :
      written pic1_command trace ≡ acknowledged 32 47 int_no (written pic1_command screen.trace)
  slave : written pic2_command trace ≡ acknowledged 40 47 int_no (written pic2_command screen.trace)

pic1-IsNotCursor : IsNotCursor pic1_command
pic1-IsNotCursor = record { not_index = refl; not_data = refl }

pic2-IsNotCursor : IsNotCursor pic2_command
pic2-IsNotCursor = record { not_index = refl; not_data = refl }

irq-AllFit : (n : ℕ) → n < 2 ^ 32 → AllFit (arguments_of (Message.received_irq n))
unfolding AllFit arguments_of
irq-AllFit n fits = (fits, tt)

interrupt-AllFit : (n : ℕ) → n < 2 ^ 32 → AllFit (arguments_of (Message.received_interrupt n))
unfolding AllFit arguments_of
interrupt-AllFit n fits = (fits, tt)

-- The two acknowledgements.
eoi_master :
    (int_no : ℕ) (trace : Trace)
    → (leb 32 int_no && leb int_no 47) ≡ true
    → written pic1_command (pic_send_eoi trace (int_no - 32))
      ≡ acknowledged 32 47 int_no (written pic1_command trace)
unfolding pic_send_eoi outportb written
eoi_master int_no trace irq = ground arith

eoi_slave :
    (int_no : ℕ) (trace : Trace)
    → (leb 32 int_no && leb int_no 47) ≡ true
    → written pic2_command (pic_send_eoi trace (int_no - 32))
      ≡ acknowledged 40 47 int_no (written pic2_command trace)
unfolding pic_send_eoi outportb written
eoi_slave int_no trace irq = ground arith

irq-IsHandled :
    (d int_no : ℕ) (screen : Screen)
    → int_no < 2 ^ 32
    → IsOnScreen screen.console
    → (leb 32 int_no && leb int_no 47) ≡ true
    → (trace : Trace) × (shown : Screen) × IsHandled d int_no screen trace shown
unfolding isr_handler irq_handler send_eoi format_of arguments_of
irq-IsHandled d int_no screen fits on irq =
    let (shown, prints, put) =
      kprintf-message screen d 0 (Message.received_irq (int_no - 32))
        (irq-AllFit (int_no - 32) (omega arith)) on (inl (omega arith)) in
    (
      pic_send_eoi shown.trace (int_no - 32),
      shown,
      record {
        says = rw irq put.puts;
        ends = rw (irq, prints) refl;
        master =
            eoi_master int_no shown.trace irq
            ∙ ap (acknowledged 32 47 int_no)
                (written-textmode_puts pic1_command _ screen pic1-IsNotCursor put.puts);
        slave =
            eoi_slave int_no shown.trace irq
            ∙ ap (acknowledged 40 47 int_no)
                (written-textmode_puts pic2_command _ screen pic2-IsNotCursor put.puts);
      },
    )

other-IsHandled :
    (d int_no : ℕ) (screen : Screen)
    → int_no < 2 ^ 32
    → IsOnScreen screen.console
    → (leb 32 int_no && leb int_no 47) ≡ false
    → (trace : Trace) × (shown : Screen) × IsHandled d int_no screen trace shown
unfolding isr_handler format_of arguments_of
other-IsHandled d int_no screen fits on other =
    let (shown, prints, put) =
      kprintf-message screen d 0 (Message.received_interrupt int_no) (interrupt-AllFit int_no fits)
        on (inl (omega arith)) in
    let no_slave : (leb 40 int_no && leb int_no 47) ≡ false = ground arith in
    (
      shown.trace,
      shown,
      record {
        says = rw other put.puts;
        ends = rw other prints;
        master = rw other (written-textmode_puts pic1_command _ screen pic1-IsNotCursor put.puts);
        slave = rw no_slave (written-textmode_puts pic2_command _ screen pic2-IsNotCursor put.puts);
      },
    )

any-IsHandled :
    (d int_no : ℕ) (screen : Screen)
    → int_no < 2 ^ 32
    → IsOnScreen screen.console
    → (trace : Trace) × (shown : Screen) × IsHandled d int_no screen trace shown
any-IsHandled d int_no screen fits on = elim (Bool-cases (leb 32 int_no && leb int_no 47)) [
  | inl irq ↦ irq-IsHandled d int_no screen fits on irq
  | inr other ↦ other-IsHandled d int_no screen fits on other
]

free_mutex :
    (m : Mutex) (d int_no : ℕ) (screen : Screen)
    → nonzero m.locked ≡ false
    → isr_handler (printer_of m d screen) int_no ≡ isr_handler (free d screen) int_no
free_mutex m d int_no screen unlocked =
    let nil : m.locked ≡ 0 = ground arith in
    ap (λ (n : ℕ). isr_handler (printer_of (record { locked = n }) d screen) int_no) nil

-- Where `isr_handler` finds the mutex of `kprintf` locked, it waits for ever. Where it is free, with one
-- display and its position on the screen: it prints which interrupt of 32 bits it has got, as
-- `textmode_puts` shows it, and acknowledges one from 32 to 47 to the master and one from 40 to 47 also
-- to the slave, and no other; the screen itself reaches neither.
pub isr_handler_lem :
    (m : Mutex) (d int_no : ℕ) (screen : Screen)
    → int_no < 2 ^ 32
    → IsOnScreen screen.console
    → (trace : Trace) × (shown : Screen) × (isr_handler (printer_of m d screen) int_no ≡ (
        if nonzero m.locked
        then none
        else some (
            ok
              (free d (record { memory = shown.memory; console = shown.console; trace = trace })))))
      × (textmode_puts (text_of (message_of int_no) ++ (0 ∷ [])) screen ≡ ok shown)
      × (written pic1_command trace ≡ acknowledged 32 47 int_no (written pic1_command screen.trace))
      × (written pic2_command trace ≡ acknowledged 40 47 int_no (written pic2_command screen.trace))
isr_handler_lem m d int_no screen fits on =
    let (trace, shown, handled) = any-IsHandled d int_no screen fits on in
    (
      trace,
      shown,
      elim (Bool-cases (nonzero m.locked)) [
        | inl locked ↦ rw locked (isr_handler-locked (printer_of m d screen) int_no locked)
        | inr unlocked ↦ rw unlocked (free_mutex m d int_no screen unlocked ∙ handled.ends)
      ],
      handled.says,
      handled.master,
      handled.slave,
    )
