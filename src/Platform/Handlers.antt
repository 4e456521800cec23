-- ===== src/Platform/Handlers.antt =====
-- `isr_handler` of kernel/platform/i386/idt.c and `irq_handler` of irq.c, with `kprintf` on the displays
-- of the kernel. `none` is a handler that waits for the mutex of `kprintf` for ever: the interrupted
-- task does not go on before it returns.
pub mod Acknowledged
use aeon_486_os.Base.{
  ℕ, ◌-◌, leb, ◌&&◌, if◌then◌else◌, List, [], ◌∷◌, ◌++◌, Option, some, Outcome, ok,
}
use aeon_486_os.Platform.Irq.{pic_send_eoi}
use aeon_486_os.Display.Printing.{Printer, kprintf}
use aeon_486_os.Display.Log.{received_irq_line, received_interrupt_line, then_print}

-- `pic_send_eoi` on the ports that the screen writes as well.
unfoldable pub send_eoi : Printer → ℕ → Printer
send_eoi printer irq =
    let s = printer.screen in
    record printer { screen = record s { trace = pic_send_eoi s.trace irq } }

unfoldable pub irq_handler : Printer → ℕ → Option (Outcome Printer)
irq_handler printer irq =
    let line = received_irq_line irq in
    then_print (kprintf printer (line.0 ++ (0 ∷ [])) (line.1))
      (λ after. some (ok (send_eoi after irq)))

-- `int_no` is the only register that the handler reads.
unfoldable pub isr_handler : Printer → ℕ → Option (Outcome Printer)
isr_handler printer int_no =
    let line = received_interrupt_line int_no in
    if leb 32 int_no && leb int_no 47
    then irq_handler printer (int_no - 32)
    else kprintf printer (line.0 ++ (0 ∷ [])) (line.1)
