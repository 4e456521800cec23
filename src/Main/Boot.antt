-- ===== src/Main/Boot.antt =====
-- `kernel_main` from the start to the end.
use aeon_486_os.Base.{
  ℕ, ◌+◌, ◌-◌, ◌%◌, ◌^◌, ◌*◌, ◌/◌, ◌≤◌, ◌<◌, ◌≡◌, refl, arith, ◌∙◌, ap, subst, length, inl, inr, ok,
  panic, ◌==◌, false, multiboot_magic, List, [], ◌∷◌, map,
}
use aeon_486_os.Platform.Hal.{Event, inportb, in_width, outportb, Trace, Message, kprintf}
use aeon_486_os.Platform.Gdt.{Gdt, GdtEntry, gdt_init}
use aeon_486_os.Platform.Gdt.Segments.{descriptor, gdt_init_lem}
use aeon_486_os.Platform.Idt.{IdtEntry, idt_init}
use aeon_486_os.Platform.Irq.{irq_init}
use aeon_486_os.Memory.Paging.{
  compute_highest_free_address, kernel_page_tables_len, page_count_of, ptf_read_write,
}
use aeon_486_os.Memory.Allocator.{Kernel, mem_get_bytes, mem_initialize, mem_block_size}
use aeon_486_os.Memory.Allocator.Init.{IsFresh}
use aeon_486_os.Memory.Paging.Find.{IsFreeRun}
use aeon_486_os.Main.Room.{
  mem_initialize-room, free_page_left, fresh-IsValid, not_all_used, first_block,
}
use aeon_486_os.Memory.Allocator.Kmalloc.{IsTaken}
use aeon_486_os.Display.Output.{display_register}
use aeon_486_os.Display.Textmode.{Screen, textmode_init, textmode_clear}
use aeon_486_os.Ata.{ready, ata_primary_io, ata_secondary_io}
use aeon_486_os.Ata.Identify.{AtaInfo, AtaStart, ata_init, ata_print_info, ata_info_size}
use aeon_486_os.Ata.Identify.Ready.{IsPresent}
use aeon_486_os.Ata.Identify.Probe.{AllKnown, ata_init-ready, ata_info_size-lt}
use aeon_486_os.Main.{
  CmosReading, read_cmos, Machine, Started, finish, kernel_main, mem_print_info,
  multiboot_bootloader_magic,
}

-- A wrong magic number stops the kernel, whatever the machine.
pub kernel_main-magic :
    (fuel : ℕ) (machine : Machine) (magic : ℕ)
    → (magic == multiboot_bootloader_magic) ≡ false
    → kernel_main fuel machine magic ≡ panic multiboot_magic
unfolding kernel_main display_register
kernel_main-magic fuel machine magic wrong =
    let (gdt, loaded, segments) = gdt_init_lem machine.gdt_address [] in rw (loaded, wrong) refl

-- A machine on which the kernel can start: all three page tables, a CMOS that gives the register that
-- was selected last, 32 blocks of memory behind the first free address, three unused pages one behind
-- the other ahead of the last page, and two buses that are ready once `bound` events have been.
pub record IsBootable (machine : Machine) (cmos : ℕ → ℕ) (first bound : ℕ) : Type 0 where
  pub tables : length machine.table ≡ kernel_page_tables_len
  pub registers :
      (t : Trace) (r : ℕ)
      → r < 256
      → machine.device (Event.out_port 0x70 r ∷ t) 0x71 % 2 ^ 8 ≡ cmos r
  pub top : compute_highest_free_address machine.table ≡ ok first
  pub memory : first + 32 * mem_block_size ≤ mem_get_bytes cmos
  pub unused : ℕ
  pub inside : unused + 3 < kernel_page_tables_len
  pub room : IsFreeRun machine.table 3 unused
  pub primary : IsPresent machine.device (ata_primary_io + 7) bound
  pub secondary : IsPresent machine.device (ata_secondary_io + 7) bound

-- The events before `mem_initialize` reads the CMOS.
abbrev pub before_cmos : Machine → (first : ℕ) → Trace → Trace
before_cmos machine first loaded =
    let idt = idt_init machine.isr machine.idt_address (kprintf loaded Message.now_booting) in
    let cmos = read_cmos machine.device (irq_init machine.device idt.trace) in
    let size = mem_get_bytes cmos.registers in
    kprintf
      (kprintf (kprintf cmos.trace (Message.memory_size size (size / 1024)))
        (Message.first_available_address first))
      Message.initializing_memory

abbrev pub cmos_of : Machine → (first : ℕ) → Trace → CmosReading
cmos_of machine first loaded = read_cmos machine.device (before_cmos machine first loaded)

abbrev pub done :
    List GdtEntry → List IdtEntry → Screen → List ℕ → AtaStart → AtaInfo → Trace → Started
done gdt idt screen s_displays start found after = record {
  gdt = gdt;
  idt = idt;
  screen = screen;
  s_displays = s_displays;
  kernel = start.kernel;
  g_ata_info = start.g_ata_info;
  drives = found;
  trace = kprintf (ata_print_info found after) Message.start_done;
}

finish-ready :
    (gdt : List GdtEntry) (idt : List IdtEntry) (screen : Screen) (s_displays : List ℕ)
    (start : AtaStart) (found : AtaInfo) (after : Trace)
    → start.probed ≡ ready (found, after)
    → finish gdt idt screen s_displays start start.probed
      ≡ ready (done gdt idt screen s_displays start found after)
unfolding finish
finish-ready gdt idt screen s_displays start found after probed = rw probed refl

module _ (fuel first bound : ℕ) (cmos : ℕ → ℕ) (machine : Machine)
    (bootable : IsBootable machine cmos first bound) where
  low_register : (trace : Trace) → (read_cmos machine.device trace).registers 0x30 ≡ cmos 0x30
  unfolding read_cmos inportb in_width outportb
  low_register trace = bootable.registers trace 0x30 (omega arith)

  high_register : (trace : Trace) → (read_cmos machine.device trace).registers 0x31 ≡ cmos 0x31
  unfolding read_cmos inportb in_width outportb
  high_register trace = bootable.registers _ 0x31 (omega arith)

  register_small : (trace : Trace) (r : ℕ) → (read_cmos machine.device trace).registers r < 256
  unfolding read_cmos inportb in_width
  register_small trace r = ground arith

  pub same_size :
      (trace : Trace)
      → mem_get_bytes (read_cmos machine.device trace).registers ≡ mem_get_bytes cmos
  unfolding mem_get_bytes
  same_size trace = rw (low_register trace, high_register trace) refl

  IsFresh-cmos :
      (trace : Trace) (k : Kernel)
      → IsFresh (read_cmos machine.device trace).registers first k
      → IsFresh cmos first k
  IsFresh-cmos trace k fresh = record {
    tables = fresh.tables;
    min_lem = fresh.min_lem;
    max_lem = fresh.max_lem ∙ same_size trace;
    count_lem = fresh.count_lem ∙ ap (λ n. (n - first) / mem_block_size) (same_size trace);
    map_len = fresh.map_len;
    in_map = fresh.in_map;
    all_free = fresh.all_free;
  }

  informed :
      (trace : Trace)
      → let reading = read_cmos machine.device trace in
        let size = mem_get_bytes reading.registers in
        mem_print_info machine.device machine.table trace
        ≡ ok (
            kprintf
              (kprintf reading.trace (Message.memory_size size (size / 1024)))
              (Message.first_available_address first))
  unfolding mem_print_info
  informed trace = rw bootable.top refl

  initialized :
      (trace : Trace)
      → let registers = (read_cmos machine.device trace).registers in
        (k : Kernel) × (p : ℕ) × (mem_initialize registers machine.table ≡ ok k)
        × IsFresh cmos first k
        × (p + 1 < kernel_page_tables_len)
        × IsFreeRun k.table 1 p
  initialized trace =
      let two : IsFreeRun machine.table 2 bootable.unused = λ i h. bootable.room i (omega arith) in
      let below : first ≤ mem_get_bytes cmos = omega (arith, bootable.memory) in
      let (k, j, runs, fresh, mapped) =
        mem_initialize-room (read_cmos machine.device trace).registers machine.table first
          bootable.unused bootable.tables (register_small trace 0x30) (register_small trace 0x31)
          bootable.top (rw (same_size trace) below) (omega (arith, bootable.inside)) two in
      let (p, near, free) =
        free_page_left machine.table k.table ptf_read_write first bootable.unused j bootable.room
          mapped in
      (k, p, runs, IsFresh-cmos trace k fresh, omega (arith, bootable.inside), free)

  kernel_main-ok :
      (gdt : Gdt) (k : Kernel) (start : AtaStart)
      → gdt_init machine.gdt_address [] ≡ ok gdt
      → mem_initialize (cmos_of machine first gdt.trace).registers machine.table ≡ ok k
      → ata_init fuel machine.device k (cmos_of machine first gdt.trace).trace ≡ ok start
      → (s_displays : List ℕ) × (kernel_main fuel machine multiboot_bootloader_magic
          ≡ ok (
              finish gdt.entries
                (idt_init machine.isr machine.idt_address
                  (kprintf gdt.trace Message.now_booting)).entries
                (textmode_clear (textmode_init machine.vga []))
                s_displays
                start
                start.probed))
  unfolding kernel_main display_register
  kernel_main-ok gdt k start loaded initialized started =
      (0 ∷ [], rw (loaded, informed, initialized, started) refl)

  -- What the steps of `kernel_main` leave, one by one.
  pub kernel_main-ends :
      bound < fuel
      → (gdt : Gdt) × (k : Kernel) × (start : AtaStart) × (found : AtaInfo) × (after : Trace)
        × (s_displays : List ℕ) × (gdt_init machine.gdt_address [] ≡ ok gdt)
        × (ata_init fuel machine.device k (cmos_of machine first gdt.trace).trace ≡ ok start)
        × (start.probed ≡ ready (found, after))
        × (kernel_main fuel machine multiboot_bootloader_magic
            ≡ ok (
                ready (
                  done gdt.entries
                    (idt_init machine.isr machine.idt_address
                      (kprintf gdt.trace Message.now_booting)).entries
                    (textmode_clear (textmode_init machine.vga []))
                    s_displays
                    start
                    found
                    after)))
        × IsFresh cmos first k
        × IsTaken k ata_info_size 0 start.g_ata_info start.kernel
        × AllKnown machine.device found
        × (map descriptor gdt.entries
            ≡ 0 ∷ 0x00CF9A000000FFFF ∷ 0x00CF92000000FFFF ∷ 0x00CFFA000000FFFF ∷ 0x00CFF2000000FFFF
              ∷ [])
  kernel_main-ends enough =
      let (gdt, loaded, segments) = gdt_init_lem machine.gdt_address [] in
      let reading = cmos_of machine first gdt.trace in
      let (k, p, starts, fresh, inside, free) = initialized (before_cmos machine first gdt.trace) in
      let one : page_count_of ata_info_size ≡ 1 = omega (arith, ata_info_size-lt) in
      elim (ata_init-ready fuel bound machine.device bootable.primary bootable.secondary enough k
        reading.trace (fresh-IsValid fresh)) [
          | inl (no_block, all_used) ↦ absurd (not_all_used fresh bootable.memory all_used)
          | inr (inl (no_pages, none)) ↦ absurd (none p (rw one inside) (rw one free))
          | inr (inr (start, b, found, after, started, before, taken, probed, known)) ↦
              let (s_displays, runs) = kernel_main-ok gdt k start loaded starts started in
              let idt =
                idt_init machine.isr machine.idt_address (kprintf gdt.trace Message.now_booting) in
              let screen = textmode_clear (textmode_init machine.vga []) in
              let ends =
                finish-ready gdt.entries idt.entries screen s_displays start found after probed in
              (
                gdt,
                k,
                start,
                found,
                after,
                s_displays,
                loaded,
                started,
                probed,
                runs ∙ ap ok ends,
                fresh,
                subst (λ n. IsTaken k ata_info_size n start.g_ata_info start.kernel)
                    (first_block b fresh before) taken,
                known,
                segments,
              )
        ]

  -- After a good magic number, on a machine on which the kernel can start and with more fuel than the
  -- buses need, `kernel_main` ends with the segments of the table, a fresh allocator of which block 0
  -- alone has been taken since, for what is known of the drives, all four drives known, and `Done!` as
  -- its last event.
  pub kernel_main_lem :
      bound < fuel
      → (started : Started) × (k : Kernel) × (before : Trace) × (kernel_main fuel machine
            multiboot_bootloader_magic
          ≡ ok (ready started))
        × IsFresh cmos first k
        × IsTaken k ata_info_size 0 started.g_ata_info started.kernel
        × AllKnown machine.device started.drives
        × (map descriptor started.gdt
            ≡ 0 ∷ 0x00CF9A000000FFFF ∷ 0x00CF92000000FFFF ∷ 0x00CFFA000000FFFF ∷ 0x00CFF2000000FFFF
              ∷ [])
        × (started.trace ≡ kprintf before Message.start_done)
  kernel_main_lem enough =
      let (
        gdt, k, start, found, after, s_displays, loaded, started, probed, runs, fresh, taken, known,
        segments,
      ) =
        kernel_main-ends enough in
      (_, k, ata_print_info found after, runs, fresh, taken, known, segments, refl)
