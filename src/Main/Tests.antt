-- ===== src/Main/Tests.antt =====
-- The start of the kernel on a small machine.
use aeon_486_os.Base.{
  zero, suc, [], ◌%◌, ◌^◌, ◌==◌, false, if◌then◌else◌, ℕ, ◌+◌, ◌*◌, ◌≡◌, refl, arith, [], ◌∷◌, map,
  ok,
}
use aeon_486_os.Platform.Hal.{Event, Trace, Device, Message, kprintf}
use aeon_486_os.Platform.Gdt.Segments.{descriptor}
use aeon_486_os.Base.{get_or, get_or-replicate, ◌≤◌}
use aeon_486_os.Memory.Paging.Find.{IsFreeRun}
use aeon_486_os.Memory.Allocator.Init.{mem_get_bytes_lem}
use aeon_486_os.Memory.Allocator.{Kernel, mem_get_bytes, mem_block_size}
use aeon_486_os.Memory.Allocator.Init.{IsFresh}
use aeon_486_os.Memory.Allocator.Kmalloc.{IsTaken}
use aeon_486_os.Memory.Tests.{one_page, length-one_page}
use aeon_486_os.Memory.Tests.Allocator.{cmos, top_of_one_page}
use aeon_486_os.Ata.{ready}
use aeon_486_os.Ata.Identify.{ata_info_size}
use aeon_486_os.Ata.Identify.Ready.{IsPresent}
use aeon_486_os.Ata.Identify.Probe.{AllKnown}
use aeon_486_os.Main.{Machine, Started, kernel_main, multiboot_bootloader_magic}
use aeon_486_os.Base.{some, ◌++◌}
use aeon_486_os.Platform.Messages.{messages_of}
use aeon_486_os.Display.Textmode.{Screen, textmode_puts}
use aeon_486_os.Display.Textmode.Cursor.{IsOnScreen}
use aeon_486_os.Display.Log.{print_messages}
use aeon_486_os.Display.Log.Lines.{free, texts_of}
use aeon_486_os.Main.Log.{boot_messages}
use aeon_486_os.Main.BootScreen.{kernel_main-text}
use aeon_486_os.Main.Boot.{IsBootable, kernel_main_lem}

-- The register of the CMOS that was selected last.
abbrev pub selected : Trace → ℕ
selected [] = 0
selected (Event.out_port port value ∷ trace) = if port == 0x70 then value else selected trace
selected (Event.in_port port value ∷ trace) = selected trace
selected (Event.printed message ∷ trace) = selected trace
selected (Event.lgdt limit base ∷ trace) = selected trace
selected (Event.lidt limit base ∷ trace) = selected trace

-- The CMOS, and 0x58 on all other ports, so that a drive is ready at once.
abbrev pub small_device : Device
small_device = λ trace port. if port == 0x71 then cmos (selected trace) else 0x58

pub registers : (t : Trace) (r : ℕ) → small_device (Event.out_port 0x70 r ∷ t) 0x71 % 2 ^ 8 ≡ cmos r
registers t zero = refl
registers t (suc r) = refl

pub small_device-IsPresent : (port : ℕ) → (port == 0x71) ≡ false → IsPresent small_device port 0
small_device-IsPresent port other = record {
  status = λ t. rw other refl;
  ready_after = record {
    no_error = λ t. rw other refl;
    not_busy = λ t h. rw other refl;
    has_data = λ t h. rw other refl;
  };
}

abbrev pub small_machine : Machine
small_machine = record {
  gdt_address = 0x101000;
  idt_address = 0x102000;
  isr = λ i. 0x103000 + 16 * i;
  table = one_page;
  vga = λ x. 0;
  device = small_device;
}

enough_memory : 0x201000 + 32 * mem_block_size ≤ mem_get_bytes cmos
enough_memory = omega (arith, mem_get_bytes_lem cmos (omega arith) (omega arith))

one_page-room : IsFreeRun one_page 3 1
one_page-room k small =
    let next : 1 + k ≡ suc k = omega arith in
    let zero_entry : get_or one_page (suc k) 0 ≡ 0 = get_or-replicate {A = ℕ} 3071 k 0 in
    rw (next, zero_entry) refl

small_machine-IsBootable : IsBootable small_machine cmos 0x201000 0
small_machine-IsBootable = record {
  tables = length-one_page;
  registers = λ t r h. registers t r;
  top = top_of_one_page;
  memory = enough_memory;
  unused = 1;
  inside = omega arith;
  room = one_page-room;
  primary = small_device-IsPresent 0x1F7 refl;
  secondary = small_device-IsPresent 0x177 refl;
}

kernel_main_lem_example :
    (started : Started) × (k : Kernel) × (before : Trace) × (kernel_main 1 small_machine
        multiboot_bootloader_magic
      ≡ ok (ready started))
    × IsFresh cmos 0x201000 k
    × IsTaken k ata_info_size 0 started.g_ata_info started.kernel
    × AllKnown small_device started.drives
    × (map descriptor started.gdt
        ≡ 0 ∷ 0x00CF9A000000FFFF ∷ 0x00CF92000000FFFF ∷ 0x00CFFA000000FFFF ∷ 0x00CFF2000000FFFF
          ∷ [])
    × (started.trace ≡ kprintf before Message.start_done)
kernel_main_lem_example =
    kernel_main_lem 1 0x201000 0 cmos small_machine small_machine-IsBootable (omega arith)

kernel_main-text_example :
    (started : Started) × (after : Screen) × (kernel_main 1 small_machine multiboot_bootloader_magic
      ≡ ok (ready started))
    × (messages_of started.trace ≡ boot_messages (mem_get_bytes cmos) 0x201000 started.drives)
    × (print_messages (messages_of started.trace) (free 0 started.screen)
        ≡ some (ok (free 0 after)))
    × (textmode_puts
          (texts_of (boot_messages (mem_get_bytes cmos) 0x201000 started.drives) ++ (0 ∷ []))
          started.screen
        ≡ ok after)
    × IsOnScreen after.console
kernel_main-text_example =
    kernel_main-text 1 0x201000 0 cmos small_machine small_machine-IsBootable (omega arith)
