-- ===== src/Display/Log/Shapes.antt =====
-- The kernel's messages are formats and texts.
use aeon_486_os.Base.{ℕ, ◌≡◌, refl, List, ◌++◌, codes}
use aeon_486_os.Base.{true, ◌==◌, Bool-cases, inl, inr}
use aeon_486_os.Platform.Hal.{Message}
use aeon_486_os.Klibc.Strings.Shortest.{numeral}
use aeon_486_os.Display.Output.Format.{IsFormat}
use aeon_486_os.Display.Textmode.Cursor.{IsText}
use aeon_486_os.Display.Log.{bus_name, drive_name, c_string}
use aeon_486_os.Display.Log.Plain.{plain-IsText, IsText-append, IsText-numeral, IsText-c_string}
use aeon_486_os.Display.Output.Text.{plain, plain-IsFormatText}
use aeon_486_os.Display.Log.Texts.{text_of, pieces_of}

-- The pieces fit a format, and the texts hold no 0.
pub IsFormat-pieces_of : (m : Message) → IsFormat (pieces_of m)
unfolding IsFormat
IsFormat-pieces_of Message.setting_up_irq =
    (plain-IsFormatText (codes "Setting up IRQ...") refl, tt)
IsFormat-pieces_of Message.irq_done = (plain-IsFormatText (codes "Done.\n") refl, tt)
IsFormat-pieces_of Message.setting_up_idt =
    (plain-IsFormatText (codes "Setting up IDT...") refl, tt)
IsFormat-pieces_of Message.idt_done = (plain-IsFormatText (codes "Done\n") refl, tt)
IsFormat-pieces_of (Message.received_irq irq) =
    (plain-IsFormatText (codes "received irq: ") refl, (plain-IsFormatText (codes "\n") refl, tt))
IsFormat-pieces_of (Message.received_interrupt int_no) = (
  plain-IsFormatText (codes "received interrupt: ") refl,
  (plain-IsFormatText (codes "\n") refl, tt),
)
IsFormat-pieces_of Message.initializing_ata =
    (plain-IsFormatText (codes "Initializing ATA drives\n") refl, tt)
IsFormat-pieces_of (Message.memory_size bytes kib) = (
  plain-IsFormatText (codes "Memory size: ") refl,
  (plain-IsFormatText (codes " bytes (") refl, (plain-IsFormatText (codes " KiB)\n") refl, tt)),
)
IsFormat-pieces_of (Message.first_available_address min_addr) = (
  plain-IsFormatText (codes "First available address: 0x") refl,
  (plain-IsFormatText (codes "\n") refl, tt),
)
IsFormat-pieces_of Message.initializing_memory =
    (plain-IsFormatText (codes "Initializing memory allocator\n") refl, tt)
IsFormat-pieces_of Message.now_booting =
    (plain-IsFormatText (codes "Now booting AEON 0.0.1\n") refl, tt)
IsFormat-pieces_of Message.start_done = (plain-IsFormatText (codes "Done!\n") refl, tt)
IsFormat-pieces_of (Message.drive_disabled bus drive) = (
  plain-IsFormatText (codes " ") refl,
  (plain-IsFormatText (codes " has ERR set. Disabled.\n") refl, tt),
)
IsFormat-pieces_of (Message.drive_online bus drive) =
    (plain-IsFormatText (codes " ") refl, (plain-IsFormatText (codes " is online.\n") refl, tt))
IsFormat-pieces_of (Message.drive_model bus drive model) = (
  plain-IsFormatText (codes "ATA Drive ") refl,
  (
    plain-IsFormatText (codes ":") refl,
    (plain-IsFormatText (codes ": ") refl, (plain-IsFormatText (codes "\n") refl, tt)),
  ),
)

IsText-bus_name : (bus : ℕ) → IsText (bus_name bus)
IsText-bus_name bus = elim (Bool-cases (bus == 0)) [
  | inl e ↦ rw e (plain-IsText (codes "Primary") refl)
  | inr e ↦ rw e (plain-IsText (codes "Secondary") refl)
]

IsText-drive_name : (drive : ℕ) → IsText (drive_name drive)
IsText-drive_name drive = elim (Bool-cases (drive == 0)) [
  | inl e ↦ rw e (plain-IsText (codes "master") refl)
  | inr e ↦ rw e (plain-IsText (codes "slave") refl)
]

-- A text behind a field.
IsText-around :
    (before middle after : List ℕ)
    → plain before ≡ true
    → IsText middle
    → IsText after
    → IsText (before ++ (middle ++ after))
IsText-around before middle after h m a =
    IsText-append before (middle ++ after) (plain-IsText before h) (IsText-append middle after m a)

pub IsText-text_of : (m : Message) → IsText (text_of m)
unfolding text_of
IsText-text_of Message.setting_up_irq = plain-IsText (codes "Setting up IRQ...") refl
IsText-text_of Message.irq_done = plain-IsText (codes "Done.\n") refl
IsText-text_of Message.setting_up_idt = plain-IsText (codes "Setting up IDT...") refl
IsText-text_of Message.idt_done = plain-IsText (codes "Done\n") refl
IsText-text_of (Message.received_irq irq) =
    IsText-around (codes "received irq: ") (numeral 10 irq) (codes "\n") refl
      (IsText-numeral 10 irq) (plain-IsText (codes "\n") refl)
IsText-text_of (Message.received_interrupt int_no) =
    IsText-around (codes "received interrupt: ") (numeral 10 int_no) (codes "\n") refl
      (IsText-numeral 10 int_no) (plain-IsText (codes "\n") refl)
IsText-text_of Message.initializing_ata = plain-IsText (codes "Initializing ATA drives\n") refl
IsText-text_of (Message.memory_size bytes kib) =
    let last = codes " KiB)\n" in
    let kib_text = numeral 10 kib in
    IsText-around (codes "Memory size: ") (numeral 10 bytes)
      (codes " bytes (" ++ (kib_text ++ last)) refl (IsText-numeral 10 bytes)
      (IsText-around (codes " bytes (") kib_text last refl (IsText-numeral 10 kib)
        (plain-IsText last refl))
IsText-text_of (Message.first_available_address min_addr) =
    IsText-around (codes "First available address: 0x") (numeral 16 min_addr) (codes "\n") refl
      (IsText-numeral 16 min_addr) (plain-IsText (codes "\n") refl)
IsText-text_of Message.initializing_memory =
    plain-IsText (codes "Initializing memory allocator\n") refl
IsText-text_of Message.now_booting = plain-IsText (codes "Now booting AEON 0.0.1\n") refl
IsText-text_of Message.start_done = plain-IsText (codes "Done!\n") refl
IsText-text_of (Message.drive_disabled bus drive) =
    let last = codes " has ERR set. Disabled.\n" in
    IsText-append (bus_name bus) (codes " " ++ (drive_name drive ++ last)) (IsText-bus_name bus) (
      IsText-around (codes " ") (drive_name drive) last refl (IsText-drive_name drive)
        (plain-IsText last refl))
IsText-text_of (Message.drive_online bus drive) =
    let last = codes " is online.\n" in
    IsText-append (bus_name bus) (codes " " ++ (drive_name drive ++ last)) (IsText-bus_name bus) (
      IsText-around (codes " ") (drive_name drive) last refl (IsText-drive_name drive)
        (plain-IsText last refl))
IsText-text_of (Message.drive_model bus drive model) =
    let last = codes "\n" in
    let name = codes ": " ++ (c_string model ++ last) in
    IsText-around (codes "ATA Drive ") (numeral 10 bus) (codes ":" ++ (numeral 10 drive ++ name))
      refl (IsText-numeral 10 bus)
      (IsText-around (codes ":") (numeral 10 drive) name refl (IsText-numeral 10 drive) (
        IsText-around (codes ": ") (c_string model) last refl (IsText-c_string model)
          (plain-IsText last refl)))
