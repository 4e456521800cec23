-- ===== src/Platform/Tests.antt =====
-- The theorems on the platform at concrete inputs.
use aeon_486_os.Base.{ℕ, ◌+◌, ◌*◌, ◌%◌, ◌^◌, ◌≡◌, ◌<◌, arith, [], get_or}
use aeon_486_os.Platform.Hal.{Device, Trace, written}
use aeon_486_os.Platform.Irq.{pic1_command, pic2_command, pic1_data, pic2_data, irq_init}
use aeon_486_os.Platform.Irq.Controllers.{saved_mask1, saved_mask2, irq_init_lem}
use aeon_486_os.Mutex.{new_mutex}
use aeon_486_os.Display.Textmode.{Screen, textmode_puts}
use aeon_486_os.Display.Log.Texts.{text_of}
use aeon_486_os.Display.Log.Lines.{free}
use aeon_486_os.Platform.Handlers.{isr_handler}
use aeon_486_os.Platform.Handlers.Acknowledged.{acknowledged, message_of, printer_of}
use aeon_486_os.Base.{some, nonzero, if◌then◌else◌, ◌++◌, ◌∷◌}
use aeon_486_os.Base.{none, ok, refl}
use aeon_486_os.Platform.Stubs.{
  General, Frame, Registers, registers_of, isr_noerrcode, general_protection,
}
use aeon_486_os.Platform.Stubs.Return.{
  cpu_of, entered, interrupt_lem, exit_of, pushed_general, words_pushed,
}
use aeon_486_os.Platform.Idt.{idt_init, zero_entry}
use aeon_486_os.Platform.Idt.Gates.{IsEntry, idt_init_lem}

-- A device on which each port gives its number.
abbrev echo : Device
echo = λ trace port. port

-- Stubs of 16 bytes each.
abbrev stubs : ℕ → ℕ
stubs = λ k. (0x101000 + 16 * k) % 2 ^ 32

stubs_fit : (k : ℕ) → stubs k < 2 ^ 32
stubs_fit k = omega arith

idt_init_lem_example : IsEntry stubs 33 (get_or (idt_init stubs 0x105000 []).entries 33 zero_entry)
idt_init_lem_example = idt_init_lem stubs 0x105000 [] 33 stubs_fit

irq_init_lem_example :
    (written pic1_command (irq_init echo []) ≡ 0x11 ∷ written pic1_command [])
    × (written pic2_command (irq_init echo []) ≡ 0x11 ∷ written pic2_command [])
    × (written pic1_data (irq_init echo [])
        ≡ saved_mask1 echo [] ∷ 1 ∷ 4 ∷ 32 ∷ written pic1_data [])
    × (written pic2_data (irq_init echo [])
        ≡ saved_mask2 echo [] ∷ 1 ∷ 2 ∷ 40 ∷ written pic2_data [])
irq_init_lem_example = irq_init_lem echo []

abbrev registers : General
registers = record { edi = 1; esi = 2; ebp = 3; esp = 4; ebx = 5; edx = 6; ecx = 7; eax = 8 }

abbrev in_kernel : Frame
in_kernel = record { eip = 0x100200; cs = 8; eflags = 0x202 }

abbrev fresh : Screen
fresh = record {
  memory = λ x. 0;
  console = record { cx = 0; cy = 0; fgcol = 15; bgcol = 0 };
  trace = [];
}

-- An interrupt of the second controller.
interrupt_lem_example :
    (regs : Registers) × (registers_of
        (entered isr_noerrcode 41 in_kernel none (cpu_of registers 0x10 9 [])).stack
      ≡ ok regs)
    × (regs.general ≡ pushed_general registers (words_pushed isr_noerrcode none))
    × (trace : Trace) × (shown : Screen) × (isr_handler (printer_of new_mutex 0 fresh) regs.int_no
        ≡ (if nonzero new_mutex.locked
            then none
            else some (
                ok (
                  free 0
                    (record { memory = shown.memory; console = shown.console; trace = trace })))))
    × (textmode_puts (text_of (message_of 41) ++ (0 ∷ [])) fresh ≡ ok shown)
    × (written pic1_command trace ≡ acknowledged 32 47 41 (written pic1_command fresh.trace))
    × (written pic2_command trace ≡ acknowledged 40 47 41 (written pic2_command fresh.trace))
interrupt_lem_example =
    interrupt_lem isr_noerrcode 41 in_kernel none registers 0x10 9 [] new_mutex 0 fresh
      (omega arith) (omega arith) (record { column = omega arith; row = omega arith })

breakpoint_exit : exit_of 3 in_kernel (cpu_of registers 0x10 9 []) ≡ general_protection 0x202
unfolding exit_of
breakpoint_exit = refl

page_fault_exit : exit_of 14 in_kernel (cpu_of registers 0x10 9 []) ≡ general_protection 0x200
unfolding exit_of
page_fault_exit = refl
