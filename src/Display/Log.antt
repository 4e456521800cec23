-- ===== src/Display/Log.antt =====
-- The calls of `kprintf` and of `panic` in the kernel, with the formats and the arguments that the source
-- gives them, and the macro `panic` of kernel/drivers/display/display.h.
pub mod Plain
pub mod Texts
pub mod Shapes
pub mod Lines
pub mod PanicTexts
pub mod Panics
mod Tests
use aeon_486_os.Base.{ℕ, ◌==◌, if◌then◌else◌, List, [], ◌∷◌, ◌++◌, Option, none, some, codes}
use aeon_486_os.Base.{
  Panic, out_of_physical_memory, out_of_page_space, unpage_locked, multiboot_magic, ata_failure,
  Outcome, ok, panic, fault, Bool,
}
use aeon_486_os.Platform.Hal.{Message}
use aeon_486_os.Display.Output.{Argument, string, int}
use aeon_486_os.Display.Printing.{Printer, kprintf}

abbrev pub bus_name : ℕ → List ℕ
bus_name bus = if bus == 0 then codes "Primary" else codes "Secondary"

abbrev pub drive_name : ℕ → List ℕ
drive_name drive = if drive == 0 then codes "master" else codes "slave"

-- An array of characters as a string, which ends ahead of its first 0.
unfoldable pub c_string : List ℕ → List ℕ
c_string [] = []
c_string (c ∷ cs) = let rest = c_string cs in if c == 0 then [] else c ∷ rest

-- Each call of `kprintf`: the format without its 0, and the arguments.
abbrev pub setting_up_irq_line : List ℕ × List Argument
setting_up_irq_line = (codes "Setting up IRQ...", [])

abbrev pub irq_done_line : List ℕ × List Argument
irq_done_line = (codes "Done.\n", [])

abbrev pub setting_up_idt_line : List ℕ × List Argument
setting_up_idt_line = (codes "Setting up IDT...", [])

abbrev pub idt_done_line : List ℕ × List Argument
idt_done_line = (codes "Done\n", [])

abbrev pub received_irq_line : ℕ → List ℕ × List Argument
received_irq_line irq = (codes "received irq: %i\n", int irq ∷ [])

abbrev pub received_interrupt_line : ℕ → List ℕ × List Argument
received_interrupt_line int_no = (codes "received interrupt: %i\n", int int_no ∷ [])

abbrev pub initializing_ata_line : List ℕ × List Argument
initializing_ata_line = (codes "Initializing ATA drives\n", [])

abbrev pub memory_size_line : (bytes kib : ℕ) → List ℕ × List Argument
memory_size_line bytes kib = (codes "Memory size: %i bytes (%i KiB)\n", int bytes ∷ int kib ∷ [])

abbrev pub first_available_address_line : ℕ → List ℕ × List Argument
first_available_address_line min_addr = (codes "First available address: 0x%x\n", int min_addr ∷ [])

abbrev pub initializing_memory_line : List ℕ × List Argument
initializing_memory_line = (codes "Initializing memory allocator\n", [])

abbrev pub now_booting_line : List ℕ × List Argument
now_booting_line = (codes "Now booting AEON 0.0.1\n", [])

abbrev pub start_done_line : List ℕ × List Argument
start_done_line = (codes "Done!\n", [])

abbrev pub drive_disabled_line : (bus drive : ℕ) → List ℕ × List Argument
drive_disabled_line bus drive =
    (codes "%s %s has ERR set. Disabled.\n", string (bus_name bus) ∷ string (drive_name drive) ∷ [])

abbrev pub drive_online_line : (bus drive : ℕ) → List ℕ × List Argument
drive_online_line bus drive =
    (codes "%s %s is online.\n", string (bus_name bus) ∷ string (drive_name drive) ∷ [])

abbrev pub drive_model_line : (bus drive : ℕ) → (model : List ℕ) → List ℕ × List Argument
drive_model_line bus drive model =
    (codes "ATA Drive %i:%i: %s\n", int bus ∷ int drive ∷ string (c_string model) ∷ [])

-- The call for each message.
abbrev pub line_of : Message → List ℕ × List Argument
line_of Message.setting_up_irq = setting_up_irq_line
line_of Message.irq_done = irq_done_line
line_of Message.setting_up_idt = setting_up_idt_line
line_of Message.idt_done = idt_done_line
line_of (Message.received_irq irq) = received_irq_line irq
line_of (Message.received_interrupt int_no) = received_interrupt_line int_no
line_of Message.initializing_ata = initializing_ata_line
line_of (Message.memory_size bytes kib) = memory_size_line bytes kib
line_of (Message.first_available_address min_addr) = first_available_address_line min_addr
line_of Message.initializing_memory = initializing_memory_line
line_of Message.now_booting = now_booting_line
line_of Message.start_done = start_done_line
line_of (Message.drive_disabled bus drive) = drive_disabled_line bus drive
line_of (Message.drive_online bus drive) = drive_online_line bus drive
line_of (Message.drive_model bus drive model) = drive_model_line bus drive model

unfoldable pub format_of : Message → List ℕ
format_of m = (line_of m).0

unfoldable pub arguments_of : Message → List Argument
arguments_of m = (line_of m).1

-- What follows a call of `kprintf` that may fault or wait for ever.
abbrev pub then_print :
    Option (Outcome Printer) → (Printer → Option (Outcome Printer)) → Option (Outcome Printer)
then_print none rest = none
then_print (some (ok printer)) rest = rest printer
then_print (some (panic p)) rest = some (panic p)
then_print (some fault) rest = some fault

-- Messages, one behind the other.
unfoldable pub print_messages : List Message → Printer → Option (Outcome Printer)
print_messages [] printer = some (ok printer)
print_messages (message ∷ messages) printer =
    then_print (kprintf printer (format_of message ++ (0 ∷ [])) (arguments_of message))
      (print_messages messages)

-- Where a `panic` stands: `__FILE__`, which the build decides, `__LINE__` and `__func__`.
pub record PanicPlace : Type 0 where
  pub file : List ℕ
  pub line : ℕ
  pub func : List ℕ

abbrev pub panic_place : (file : List ℕ) → Panic → PanicPlace
panic_place file out_of_physical_memory = record { file = file; line = 174; func = codes "kmalloc" }
panic_place file out_of_page_space = record { file = file; line = 165; func = codes "page" }
panic_place file unpage_locked = record { file = file; line = 253; func = codes "unpage" }
panic_place file multiboot_magic = record { file = file; line = 48; func = codes "kernel_main" }
panic_place file ata_failure = record { file = file; line = 261; func = codes "ata_poll_status" }

-- The arguments of each `panic`. `magic` is the argument of `kernel_main`.
abbrev pub out_of_physical_memory_line : List ℕ × List Argument
out_of_physical_memory_line = (codes "Out of physical memory.", [])

abbrev pub out_of_page_space_line : List ℕ × List Argument
out_of_page_space_line = (codes "Out of page space.", [])

abbrev pub unpage_locked_line : List ℕ × List Argument
unpage_locked_line = (codes "Kernel tried to unpage a locked page.", [])

abbrev pub ata_failure_line : List ℕ × List Argument
ata_failure_line = (codes "ATA device failure.\n", [])

abbrev pub multiboot_magic_line : (magic : ℕ) → List ℕ × List Argument
multiboot_magic_line magic = (codes "Multiboot magic invalid: %x", int magic ∷ [])

abbrev pub panic_line : (magic : ℕ) → Panic → List ℕ × List Argument
panic_line magic out_of_physical_memory = out_of_physical_memory_line
panic_line magic out_of_page_space = out_of_page_space_line
panic_line magic unpage_locked = unpage_locked_line
panic_line magic ata_failure = ata_failure_line
panic_line magic multiboot_magic = multiboot_magic_line magic

unfoldable pub panic_format : Panic → List ℕ
panic_format p = (panic_line 0 p).0

unfoldable pub panic_arguments : (magic : ℕ) → Panic → List Argument
panic_arguments magic p = (panic_line magic p).1

-- The first format of `panic`.
unfoldable pub place_format : List ℕ
place_format = codes "\n\n***KERNEL PANIC***\n\n %s:%d in %s.\n"

-- What `panic` prints before it turns for ever.
unfoldable pub panic_print :
    (file : List ℕ) → (magic : ℕ) → Panic → Printer → Option (Outcome Printer)
panic_print file magic p printer =
    let place = panic_place file p in
    then_print
      (kprintf printer (place_format ++ (0 ∷ []))
        (string place.file ∷ int place.line ∷ string place.func ∷ []))
      (λ next. kprintf next (panic_format p ++ (0 ∷ [])) (panic_arguments magic p))
