-- ===== src/Main/BootScreen.antt =====
-- What the screen shows once the kernel has started.
use aeon_486_os.Base.{ℕ, ◌^◌, ◌<◌, ◌≡◌, arith, [], ◌∷◌, ◌++◌, some, ok, inl}
use aeon_486_os.Platform.Messages.{messages_of}
use aeon_486_os.Memory.Allocator.{mem_get_bytes}
use aeon_486_os.Memory.Allocator.Init.{mem_get_bytes_lem}
use aeon_486_os.Display.Output.Format.{AllFit}
use aeon_486_os.Display.Textmode.{Screen, textmode_init, textmode_clear, textmode_puts}
use aeon_486_os.Display.Textmode.Cursor.{IsOnScreen}
use aeon_486_os.Display.Log.{print_messages, arguments_of}
use aeon_486_os.Display.Log.Lines.{free, texts_of, AllMessagesFit, print_messages_lem}
use aeon_486_os.Klibc.Memory.{Memory}
use aeon_486_os.Ata.{ready}
use aeon_486_os.Ata.Identify.{AtaInfo}
use aeon_486_os.Main.{Machine, Started, kernel_main, multiboot_bootloader_magic}
use aeon_486_os.Main.Boot.{IsBootable}
use aeon_486_os.Main.Log.{boot_messages, kernel_main-messages}

boot_messages-AllMessagesFit :
    (bytes first : ℕ) (drives : AtaInfo)
    → bytes < 2 ^ 32
    → first < 2 ^ 32
    → AllMessagesFit (boot_messages bytes first drives)
unfolding AllMessagesFit arguments_of AllFit
boot_messages-AllMessagesFit bytes first drives small below = omega arith

cleared-IsOnScreen : (vga : Memory) → IsOnScreen (textmode_clear (textmode_init vga [])).console
unfolding textmode_clear textmode_init
cleared-IsOnScreen vga = record { column = omega arith; row = omega arith }

-- On a machine on which the kernel can start, with a good magic number and more fuel than the buses
-- need, `kernel_main` comes to its end; its messages are those of a start with four drives, in that
-- order; and when they are printed on the screen that it has cleared, with that screen as the only
-- display, the screen is as `textmode_puts` of all their texts in one leaves it, with the position
-- on the screen.
pub kernel_main-text :
    (fuel first bound : ℕ) (cmos : ℕ → ℕ) (machine : Machine)
    → IsBootable machine cmos first bound
    → bound < fuel
    → (started : Started) × (after : Screen) × (kernel_main fuel machine multiboot_bootloader_magic
        ≡ ok (ready started))
      × (messages_of started.trace ≡ boot_messages (mem_get_bytes cmos) first started.drives)
      × (print_messages (messages_of started.trace) (free 0 started.screen)
          ≡ some (ok (free 0 after)))
      × (textmode_puts
            (texts_of (boot_messages (mem_get_bytes cmos) first started.drives) ++ (0 ∷ []))
            started.screen
          ≡ ok after)
      × IsOnScreen after.console
kernel_main-text fuel first bound cmos machine bootable enough =
    let (started, runs, says, cleared) =
      kernel_main-messages fuel first bound cmos machine bootable enough in
    let low : cmos 0x30 < 256 = omega (arith, bootable.registers [] 0x30 (omega arith)) in
    let high : cmos 0x31 < 256 = omega (arith, bootable.registers [] 0x31 (omega arith)) in
    let bytes = mem_get_bytes_lem cmos low high in
    let fit =
      boot_messages-AllMessagesFit (mem_get_bytes cmos) first started.drives (omega (arith, bytes))
        (omega (arith, bytes, bootable.memory)) in
    let (after, prints, puts, on, kept) =
      print_messages_lem (boot_messages (mem_get_bytes cmos) first started.drives) started.screen 0
        0 fit (rw cleared (cleared-IsOnScreen machine.vga)) (inl (omega arith)) in
    (started, after, runs, says, rw says prints, puts, on)
