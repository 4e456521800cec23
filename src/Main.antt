-- ===== src/Main.antt =====
-- kernel/main.c, with `mem_print_info` of kernel/memory/memory.c. What the processor and the linker
-- give are parameters: the addresses of the tables and of the stubs, the page tables and the screen
-- memory at the start, and the devices, of which the CMOS is one. The trace holds the events of all
-- routines.
pub mod Speaker
pub mod Room
pub mod Boot
pub mod Log
pub mod BootScreen
pub mod Tests
use aeon_486_os.Base.{ℕ, ◌/◌, ◌%◌, ◌^◌, List, [], bit_and, bit_or}
use aeon_486_os.Base.{Outcome, ok, panic, fault, ◌>>=◌, multiboot_magic, ◌==◌, not, if◌then◌else◌}
use aeon_486_os.Base.Word.{u32, shr}
use aeon_486_os.Klibc.Memory.{Memory}
use aeon_486_os.Platform.Hal.{Trace, Device, Message, inportb, outportb, kprintf}
use aeon_486_os.Platform.Gdt.{GdtEntry, gdt_init}
use aeon_486_os.Platform.Idt.{IdtEntry, idt_init}
use aeon_486_os.Platform.Irq.{irq_init}
use aeon_486_os.Memory.Paging.{compute_highest_free_address}
use aeon_486_os.Memory.Allocator.{Kernel, mem_get_bytes, mem_initialize}
use aeon_486_os.Display.Output.{display_register}
use aeon_486_os.Display.Textmode.{Screen, textmode_init, textmode_clear}
use aeon_486_os.Ata.{Polled, ready, device_failure, waiting}
use aeon_486_os.Ata.Identify.{AtaInfo, AtaStart, ata_init, ata_print_info}

-- A division by 0 stops the processor.
unfoldable pub play_sound : Device → Trace → (frequence : ℕ) → Outcome Trace
play_sound device trace frequence =
    if frequence == 0
    then fault
    else (let div = 1193180 / frequence in
        let mode = outportb trace 0x43 0xb6 in
        let low = outportb mode 0x42 div in
        let high = outportb low 0x42 (shr div 8) in
        let tmp = inportb device high 0x61 in
        ok (
          if not (tmp.value == bit_or tmp.value 3)
          then outportb tmp.trace 0x61 (bit_or tmp.value 3)
          else tmp.trace))

unfoldable pub nosound : Device → Trace → Trace
nosound device trace =
    let tmp = inportb device trace 0x61 in outportb tmp.trace 0x61 (bit_and tmp.value 0xFC)

-- The ports of `mem_get_bytes`: what it reads of the registers 0x30 and 0x31 of the CMOS.
pub record CmosReading : Type 0 where
  pub registers : ℕ → ℕ
  pub trace : Trace

unfoldable pub read_cmos : Device → Trace → CmosReading
read_cmos device trace =
    let low = inportb device (outportb trace 0x70 0x30) 0x71 in
    let high = inportb device (outportb low.trace 0x70 0x31) 0x71 in
    record { registers = λ r. if r == 0x30 then low.value else high.value; trace = high.trace }

unfoldable pub mem_print_info : Device → (table : List ℕ) → Trace → Outcome Trace
mem_print_info device table trace = do
  let cmos = read_cmos device trace
  let size = mem_get_bytes cmos.registers
  min_addr ← compute_highest_free_address table
  ok (
      kprintf (kprintf cmos.trace (Message.memory_size size (size / 1024)))
        (Message.first_available_address min_addr))

-- What the kernel finds.
pub record Machine : Type 0 where
  pub gdt_address : ℕ
  pub idt_address : ℕ
  pub isr : ℕ → ℕ
  pub table : List ℕ
  pub vga : Memory
  pub device : Device

-- What `kernel_main` leaves.
pub record Started : Type 0 where
  pub gdt : List GdtEntry
  pub idt : List IdtEntry
  pub screen : Screen
  pub s_displays : List ℕ
  pub kernel : Kernel
  pub g_ata_info : ℕ
  pub drives : AtaInfo
  pub trace : Trace

abbrev pub multiboot_bootloader_magic : ℕ
multiboot_bootloader_magic = 0x2BADB002

-- The end of `kernel_main`, from the result of `ata_probe` on.
unfoldable pub finish :
    List GdtEntry
    → List IdtEntry
    → Screen
    → List ℕ
    → AtaStart
    → Polled (AtaInfo × Trace)
    → Polled Started
finish gdt idt screen s_displays start (ready (drives, trace)) = ready (record {
  gdt = gdt;
  idt = idt;
  screen = screen;
  s_displays = s_displays;
  kernel = start.kernel;
  g_ata_info = start.g_ata_info;
  drives = drives;
  trace = kprintf (ata_print_info drives trace) Message.start_done;
})
finish gdt idt screen s_displays start device_failure = device_failure
finish gdt idt screen s_displays start waiting = waiting

-- `fuel` bounds the loops that wait for a drive. The only display gets the number 0.
unfoldable pub kernel_main : (fuel : ℕ) → Machine → (magic : ℕ) → Outcome (Polled Started)
kernel_main fuel machine magic = do
  gdt ← gdt_init machine.gdt_address []
  let screen = textmode_clear (textmode_init machine.vga [])
  s_displays ← display_register [] 0
  if not (magic == multiboot_bootloader_magic) then panic multiboot_magic else do
    let booting = kprintf gdt.trace Message.now_booting
    let idt = idt_init machine.isr machine.idt_address booting
    let remapped = irq_init machine.device idt.trace
    informed ← mem_print_info machine.device machine.table remapped
    let initializing = kprintf informed Message.initializing_memory
    let cmos = read_cmos machine.device initializing
    kernel ← mem_initialize cmos.registers machine.table
    start ← ata_init fuel machine.device kernel cmos.trace
    ok (finish gdt.entries idt.entries screen s_displays start start.probed)
