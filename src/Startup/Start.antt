-- ===== src/Startup/Start.antt =====
-- kernel/boot.s with `kernel_main` of kernel/main.c behind it. What the code does once `kernel_main` has
-- returned is a loop of `hlt` with the interrupts off.
use aeon_486_os.Base.{
  ℕ, ◌+◌, ◌*◌, ◌%◌, ◌^◌, ◌≤◌, ◌<◌, ◌≡◌, arith, List, ◌∷◌, Outcome, ok, ◌>>=◌, subst,
}
use aeon_486_os.Platform.Hal.{Event, Trace}
use aeon_486_os.Memory.Allocator.{Kernel, mem_get_bytes, mem_block_size}
use aeon_486_os.Memory.Allocator.Init.{IsFresh}
use aeon_486_os.Memory.Allocator.Kmalloc.{IsTaken}
use aeon_486_os.Ata.{Polled, ready, ata_primary_io, ata_secondary_io}
use aeon_486_os.Ata.Identify.{ata_info_size}
use aeon_486_os.Ata.Identify.Ready.{IsPresent}
use aeon_486_os.Main.{Machine, Started, kernel_main, multiboot_bootloader_magic}
use aeon_486_os.Main.Boot.{IsBootable, kernel_main_lem}
use aeon_486_os.Startup.{
  Words, Image, page_table_00000000, page_table_C0000000, set_up_tables, behind_jump,
}
use aeon_486_os.Startup.Counter.{pages_of, identity_pages, kernel_pages}
use aeon_486_os.Startup.Tables.{
  IsPlaced, IsEnough, HasTables, identity_pages-le, kernel_pages-le, kernel_pages-IsEnough,
  set_up_tables_lem,
}
use aeon_486_os.Startup.Translate.{HasTables-jump, exchanged}
use aeon_486_os.Startup.Paged.{exchanges}
use aeon_486_os.Startup.Space.{IsCleared}
use aeon_486_os.Startup.Handover.{length-words_from, kernel_tables, highest, room}

-- The machine with the page tables as they are in the memory.
abbrev pub with_table : Machine → List ℕ → Machine
with_table machine table = record {
  gdt_address = machine.gdt_address;
  idt_address = machine.idt_address;
  isr = machine.isr;
  table = table;
  vga = machine.vga;
  device = machine.device;
}

-- From `_start`, with what the boot loader leaves in `%ecx` and `%eax`.
unfoldable pub boot_kernel :
    (fuel : ℕ) → Machine → Image → (ecx eax : ℕ) → Words → Outcome (Polled Started)
boot_kernel fuel machine image ecx eax words = do
  tables ← set_up_tables image ecx words
  upper ← behind_jump image tables
  kernel_main fuel (with_table machine (kernel_tables image upper)) eax

-- A machine whose devices let the kernel boot_kernel, with 32 blocks of memory behind the kernel.
pub record HasDevices (machine : Machine) (cmos : ℕ → ℕ) (image : Image) (bound : ℕ) : Type 0 where
  pub registers :
      (t : Trace) (r : ℕ)
      → r < 256
      → machine.device (Event.out_port 0x70 r ∷ t) 0x71 % 2 ^ 8 ≡ cmos r
  pub memory : pages_of image * 4096 + 32 * mem_block_size ≤ mem_get_bytes cmos
  pub primary : IsPresent machine.device (ata_primary_io + 7) bound
  pub secondary : IsPresent machine.device (ata_secondary_io + 7) bound

-- What the boot code hands over is what `kernel_main` needs.
HasTables-IsBootable :
    (machine : Machine) (cmos : ℕ → ℕ) (image : Image) (bound : ℕ) (before after : Words)
    (low identity : ℕ)
    → IsPlaced image
    → IsCleared image before
    → identity ≤ 1024
    → HasDevices machine cmos image bound
    → HasTables image before after low identity (pages_of image)
    → IsBootable (with_table machine (kernel_tables image after)) cmos (pages_of image * 4096) bound
HasTables-IsBootable machine cmos image bound before after low identity placed cleared few devices
      has =
    let few' : pages_of image ≤ 1023 = omega (arith, placed.below) in
    let some_pages : 256 < pages_of image = omega (arith, placed.behind, placed.ahead) in
    record {
      tables = length-words_from after (page_table_C0000000 image) 3072;
      registers = devices.registers;
      top =
          highest image before after low identity (pages_of image) placed cleared few few'
            some_pages has;
      memory = devices.memory;
      unused = 0;
      inside = omega arith;
      room =
          room image before after low identity (pages_of image) placed cleared few few' some_pages
            has;
      primary = devices.primary;
      secondary = devices.secondary;
    }

-- With the tables placed as the linker does and filled with zeros, a counter that stops no loop
-- ahead of the kernel's end, a machine whose devices let the kernel start, a good magic number and
-- more fuel than the buses need, the boot code and `kernel_main` behind it come to the end, with a
-- fresh allocator whose memory begins behind the kernel's last page, and of which block 0 alone has
-- been taken since, for what is known of the drives.
pub boot_kernel_lem :
    (fuel bound ecx : ℕ) (cmos : ℕ → ℕ) (machine : Machine) (image : Image) (before : Words)
    → ecx < 2 ^ 32
    → IsPlaced image
    → IsCleared image before
    → IsEnough image ecx
    → HasDevices machine cmos image bound
    → bound < fuel
    → (started : Started) × (k : Kernel) × (boot_kernel fuel machine image ecx
          multiboot_bootloader_magic before
        ≡ ok (ready started))
      × IsFresh cmos (pages_of image * 4096) k
      × IsTaken k ata_info_size 0 started.g_ata_info started.kernel
unfolding boot_kernel
boot_kernel_lem fuel bound ecx cmos machine image before word placed cleared enough devices waits =
    let (after, runs, has) = set_up_tables_lem image ecx before word placed in
    let low = page_table_00000000 image in
    let all = kernel_pages-IsEnough image ecx word placed enough in
    let reached : image.page_directory < kernel_pages image ecx * 4096 =
      rw all (omega (arith, placed.ahead)) in
    let goes_on = exchanges image ecx before after word placed cleared has reached in
    let jumped =
      HasTables-jump image before after (page_table_C0000000 image) (identity_pages ecx)
        (kernel_pages image ecx) (kernel_pages-le image ecx placed) has in
    let bootable =
      HasTables-IsBootable machine cmos image bound before (exchanged image after) low
        (identity_pages ecx) placed cleared (identity_pages-le ecx word) devices
        (subst (HasTables image before (exchanged image after) low (identity_pages ecx)) all
          jumped) in
    let (started, k, trace, ends, fresh, taken, known, segments, last) =
      kernel_main_lem fuel (pages_of image * 4096) bound cmos
        (with_table machine (kernel_tables image (exchanged image after))) bootable waits in
    (started, k, rw (runs, goes_on) ends, fresh, taken)
