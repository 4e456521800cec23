-- ===== src/Main/Log.antt =====
-- What the kernel says while it starts.
use aeon_486_os.Base.{
  ℕ, ◌/◌, ◌<◌, ◌≡◌, refl, arith, sym, ap, ◌∙◌, zero, suc, List, [], ◌∷◌, ◌++◌, inl, inr,
}
use aeon_486_os.Base.{Outcome, Outcome-cases, ok, panic, fault}
use aeon_486_os.Platform.Hal.{Trace, Device, Message, kprintf, inportb, in_width, outportb, io_wait}
use aeon_486_os.Platform.Messages.{messages_of}
use aeon_486_os.Platform.Gdt.{Gdt, gdt_init, gdt_set_gate, gdt_entry_of}
use aeon_486_os.Platform.Idt.{idt_init}
use aeon_486_os.Platform.Irq.{irq_init, pic_remap}
use aeon_486_os.Memory.Allocator.{Kernel, kmalloc, mem_get_bytes}
use aeon_486_os.Display.Textmode.{textmode_init, textmode_clear}
use aeon_486_os.Ata.{Polled, ready}
use aeon_486_os.Ata.Identify.{
  AtaInfo, AtaStart, ata_init, ata_probe, ata_print_info, ata_print_single_info, ata_info_size,
  no_drive,
}
use aeon_486_os.Ata.Identify.Probe.{AllKnown}
use aeon_486_os.Ata.Identify.Log.{ata_probe-online, all_online}
use aeon_486_os.Main.{Machine, Started, kernel_main, read_cmos, multiboot_bootloader_magic}
use aeon_486_os.Main.Boot.{IsBootable, cmos_of, kernel_main-ends, same_size}

-- What is said up to the disk driver.
abbrev early_messages : (bytes first : ℕ) → List Message
early_messages bytes first =
    Message.now_booting
    ∷ Message.setting_up_idt
    ∷ Message.idt_done
    ∷ Message.setting_up_irq
    ∷ Message.irq_done
    ∷ Message.memory_size bytes (bytes / 1024)
    ∷ Message.first_available_address first
    ∷ Message.initializing_memory
    ∷ []

-- All that is said, with four drives.
abbrev pub boot_messages : (bytes first : ℕ) → AtaInfo → List Message
boot_messages bytes first drives =
    Message.now_booting
    ∷ Message.setting_up_idt
    ∷ Message.idt_done
    ∷ Message.setting_up_irq
    ∷ Message.irq_done
    ∷ Message.memory_size bytes (bytes / 1024)
    ∷ Message.first_available_address first
    ∷ Message.initializing_memory
    ∷ Message.initializing_ata
    ∷ Message.drive_online 0 0
    ∷ Message.drive_online 0 1
    ∷ Message.drive_online 1 0
    ∷ Message.drive_online 1 1
    ∷ Message.drive_model 0 0 (drives 0 0).model
    ∷ Message.drive_model 0 1 (drives 0 1).model
    ∷ Message.drive_model 1 0 (drives 1 0).model
    ∷ Message.drive_model 1 1 (drives 1 1).model
    ∷ Message.start_done
    ∷ []

-- The messages behind a result.
gdt_messages : Outcome Gdt → List Message
gdt_messages (ok gdt) = messages_of gdt.trace
gdt_messages (panic p) = []
gdt_messages fault = []

gdt_init-messages :
    (address : ℕ) (gdt : Gdt) → gdt_init address [] ≡ ok gdt → messages_of gdt.trace ≡ []
unfolding gdt_init gdt_set_gate gdt_entry_of messages_of gdt_messages
gdt_init-messages address gdt loaded = sym (ap gdt_messages loaded)

-- What `ata_init` has left to do behind `kmalloc`.
abbrev probe_behind : (fuel : ℕ) → Device → Trace → Polled (AtaInfo × Trace)
probe_behind fuel device trace =
    ata_probe fuel device (λ bus drive. no_drive) (kprintf trace Message.initializing_ata)

probed_of : Polled (AtaInfo × Trace) → Outcome AtaStart → Polled (AtaInfo × Trace)
probed_of other (ok start) = start.probed
probed_of other (panic p) = other
probed_of other fault = other

ata_init-probed :
    (fuel : ℕ) (device : Device) (kernel : Kernel) (trace : Trace) (start : AtaStart)
    → ata_init fuel device kernel trace ≡ ok start
    → start.probed ≡ probe_behind fuel device trace
unfolding ata_init probed_of
ata_init-probed fuel device kernel trace start runs =
    let other = probe_behind fuel device trace in
    sym (ap (probed_of other) runs) ∙ elim (Outcome-cases (kmalloc kernel ata_info_size)) [
      | inl (block, e) ↦ rw e refl
      | inr (inl (p, e)) ↦ rw e refl
      | inr (inr e) ↦ rw e refl
    ]

ata_print_single_info-messages :
    (info : AtaInfo) (trace : Trace) (bus drive : ℕ)
    → (info bus drive).available ≡ 1
    → messages_of (ata_print_single_info info trace bus drive)
      ≡ messages_of trace ++ (Message.drive_model bus drive (info bus drive).model ∷ [])
unfolding ata_print_single_info messages_of kprintf
ata_print_single_info-messages info trace bus drive there = rw there refl

module _ (info : AtaInfo) (trace : Trace)
    (known : (b e : ℕ) → b < 2 → e < 2 → (info b e).available ≡ 1) where
  one :
      (t : Trace) (b e : ℕ)
      → b < 2
      → e < 2
      → messages_of (ata_print_single_info info t b e)
        ≡ messages_of t ++ (Message.drive_model b e (info b e).model ∷ [])
  one t b e h k = ata_print_single_info-messages info t b e (known b e h k)

  ata_print_info-messages :
      (before : List Message)
      → messages_of trace ≡ before
      → messages_of (ata_print_info info trace)
        ≡ (((before ++ (Message.drive_model 0 0 (info 0 0).model ∷ []))
              ++ (Message.drive_model 0 1 (info 0 1).model ∷ []))
            ++ (Message.drive_model 1 0 (info 1 0).model ∷ []))
          ++ (Message.drive_model 1 1 (info 1 1).model ∷ [])
  unfolding ata_print_info
  ata_print_info-messages before e =
      rw
        (
          one _ 1 1 (omega arith) (omega arith),
          one _ 1 0 (omega arith) (omega arith),
          one _ 0 1 (omega arith) (omega arith),
          one trace 0 0 (omega arith) (omega arith),
          e,
        )
        refl

-- The messages up to the disk driver.
before_cmos-messages :
    (machine : Machine) (first bytes : ℕ) (loaded : Trace)
    → messages_of loaded ≡ []
    → mem_get_bytes
        (read_cmos machine.device (
          irq_init machine.device
            (idt_init machine.isr machine.idt_address
              (kprintf loaded Message.now_booting)).trace)).registers
      ≡ bytes
    → messages_of (cmos_of machine first loaded).trace ≡ early_messages bytes first
unfolding messages_of idt_init irq_init pic_remap read_cmos kprintf inportb in_width outportb
    io_wait
before_cmos-messages machine first bytes loaded nothing size = rw (nothing, size) refl

AllKnown-available :
    (device : Device) (info : AtaInfo)
    → AllKnown device info
    → (b e : ℕ) → b < 2
    → e < 2
    → (info b e).available ≡ 1
AllKnown-available device info known zero zero h k = (known.primary_master.1).online
AllKnown-available device info known zero (suc zero) h k = (known.primary_slave.1).online
AllKnown-available device info known (suc zero) zero h k = (known.secondary_master.1).online
AllKnown-available device info known (suc zero) (suc zero) h k = (known.secondary_slave.1).online
AllKnown-available device info known zero (suc (suc e)) h k = absurd (omega arith)
AllKnown-available device info known (suc zero) (suc (suc e)) h k = absurd (omega arith)
AllKnown-available device info known (suc (suc b)) e h k = absurd (omega arith)

-- On a machine on which the kernel can start, with a good magic number and more fuel than the buses need,
-- `kernel_main` comes to its end, and what it has said is this, in this order: that it boots, the
-- interrupt table, the interrupt controllers, the size of the memory and the first free address, the
-- allocator, the disk driver, each of the four drives twice, the second time by its name, and `Done!`. The screen
-- that it has cleared is the one that it was given.
pub kernel_main-messages :
    (fuel first bound : ℕ) (cmos : ℕ → ℕ) (machine : Machine)
    → IsBootable machine cmos first bound
    → bound < fuel
    → (started : Started) × (kernel_main fuel machine multiboot_bootloader_magic
        ≡ ok (ready started))
      × (messages_of started.trace ≡ boot_messages (mem_get_bytes cmos) first started.drives)
      × (started.screen ≡ textmode_clear (textmode_init machine.vga []))
unfolding messages_of kprintf
kernel_main-messages fuel first bound cmos machine bootable enough =
    let (
      gdt, k, start, found, after, s_displays, loaded, started, probed, runs, fresh, taken, known,
      segments,
    ) =
      kernel_main-ends fuel first bound cmos machine bootable enough in
    let there = AllKnown-available machine.device found known in
    let early =
      before_cmos-messages machine first (mem_get_bytes cmos) gdt.trace
        (gdt_init-messages machine.gdt_address gdt loaded)
        (same_size fuel first bound cmos machine bootable _) in
    let trace = (cmos_of machine first gdt.trace).trace in
    let online =
      ata_probe-online fuel machine.device found (kprintf trace Message.initializing_ata) after
        (sym (ata_init-probed fuel machine.device k trace start started) ∙ probed) there
      ∙ ap (λ ms. all_online (ms ++ (Message.initializing_ata ∷ []))) early in
    let printed = ata_print_info-messages found after there _ online in
    (_, runs, ap (λ ms. ms ++ (Message.start_done ∷ [])) printed, refl)
