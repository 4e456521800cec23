-- ===== src/Display/Log/Texts.antt =====
-- The texts of the kernel's messages, and the formats that say them.
use aeon_486_os.Base.{ℕ, ◌-◌, ◌≡◌, refl, arith, List, [], ◌∷◌, ◌++◌, codes, length}
use aeon_486_os.Base.{ok}
use aeon_486_os.Platform.Hal.{Message}
use aeon_486_os.Klibc.Strings.Shortest.{numeral}
use aeon_486_os.Display.Output.Format.{
  Piece, text, field, letter_i, letter_x, letter_s, encode, field_text, in_front, render, filled_up,
}
use aeon_486_os.Display.Log.{format_of, arguments_of, bus_name, drive_name, c_string}

-- What a message says.
unfoldable pub text_of : Message → List ℕ
text_of Message.setting_up_irq = codes "Setting up IRQ..."
text_of Message.irq_done = codes "Done.\n"
text_of Message.setting_up_idt = codes "Setting up IDT..."
text_of Message.idt_done = codes "Done\n"
text_of (Message.received_irq irq) = codes "received irq: " ++ (numeral 10 irq ++ codes "\n")
text_of (Message.received_interrupt int_no) =
    codes "received interrupt: " ++ (numeral 10 int_no ++ codes "\n")
text_of Message.initializing_ata = codes "Initializing ATA drives\n"
text_of (Message.memory_size bytes kib) =
    codes "Memory size: "
    ++ (numeral 10 bytes ++ (codes " bytes (" ++ (numeral 10 kib ++ codes " KiB)\n")))
text_of (Message.first_available_address min_addr) =
    codes "First available address: 0x" ++ (numeral 16 min_addr ++ codes "\n")
text_of Message.initializing_memory = codes "Initializing memory allocator\n"
text_of Message.now_booting = codes "Now booting AEON 0.0.1\n"
text_of Message.start_done = codes "Done!\n"
text_of (Message.drive_disabled bus drive) =
    bus_name bus ++ (codes " " ++ (drive_name drive ++ codes " has ERR set. Disabled.\n"))
text_of (Message.drive_online bus drive) =
    bus_name bus ++ (codes " " ++ (drive_name drive ++ codes " is online.\n"))
text_of (Message.drive_model bus drive model) =
    codes "ATA Drive "
    ++ (numeral 10 bus
        ++ (codes ":" ++ (numeral 10 drive ++ (codes ": " ++ (c_string model ++ codes "\n")))))

-- The format of a message in pieces.
abbrev pub pieces_of : Message → List Piece
pieces_of Message.setting_up_irq = text (codes "Setting up IRQ...") ∷ []
pieces_of Message.irq_done = text (codes "Done.\n") ∷ []
pieces_of Message.setting_up_idt = text (codes "Setting up IDT...") ∷ []
pieces_of Message.idt_done = text (codes "Done\n") ∷ []
pieces_of (Message.received_irq irq) =
    text (codes "received irq: ") ∷ field letter_i ∷ text (codes "\n") ∷ []
pieces_of (Message.received_interrupt int_no) =
    text (codes "received interrupt: ") ∷ field letter_i ∷ text (codes "\n") ∷ []
pieces_of Message.initializing_ata = text (codes "Initializing ATA drives\n") ∷ []
pieces_of (Message.memory_size bytes kib) =
    text (codes "Memory size: ")
    ∷ field letter_i
    ∷ text (codes " bytes (")
    ∷ field letter_i
    ∷ text (codes " KiB)\n")
    ∷ []
pieces_of (Message.first_available_address min_addr) =
    text (codes "First available address: 0x") ∷ field letter_x ∷ text (codes "\n") ∷ []
pieces_of Message.initializing_memory = text (codes "Initializing memory allocator\n") ∷ []
pieces_of Message.now_booting = text (codes "Now booting AEON 0.0.1\n") ∷ []
pieces_of Message.start_done = text (codes "Done!\n") ∷ []
pieces_of (Message.drive_disabled bus drive) =
    field letter_s
    ∷ text (codes " ")
    ∷ field letter_s
    ∷ text (codes " has ERR set. Disabled.\n")
    ∷ []
pieces_of (Message.drive_online bus drive) =
    field letter_s ∷ text (codes " ") ∷ field letter_s ∷ text (codes " is online.\n") ∷ []
pieces_of (Message.drive_model bus drive model) =
    text (codes "ATA Drive ")
    ∷ field letter_i
    ∷ text (codes ":")
    ∷ field letter_i
    ∷ text (codes ": ")
    ∷ field letter_s
    ∷ text (codes "\n")
    ∷ []

-- A field without a width.
pub filled_nil : (digits : List ℕ) → filled_up 0 digits ≡ digits
filled_nil digits = let none : 0 - length digits ≡ 0 = omega arith in rw none refl

pub encode-pieces_of : (m : Message) → encode (pieces_of m) ≡ format_of m
unfolding encode format_of
encode-pieces_of Message.setting_up_irq = refl
encode-pieces_of Message.irq_done = refl
encode-pieces_of Message.setting_up_idt = refl
encode-pieces_of Message.idt_done = refl
encode-pieces_of (Message.received_irq irq) = refl
encode-pieces_of (Message.received_interrupt int_no) = refl
encode-pieces_of Message.initializing_ata = refl
encode-pieces_of (Message.memory_size bytes kib) = refl
encode-pieces_of (Message.first_available_address min_addr) = refl
encode-pieces_of Message.initializing_memory = refl
encode-pieces_of Message.now_booting = refl
encode-pieces_of Message.start_done = refl
encode-pieces_of (Message.drive_disabled bus drive) = refl
encode-pieces_of (Message.drive_online bus drive) = refl
encode-pieces_of (Message.drive_model bus drive model) = refl

pub render-pieces_of : (m : Message) → render (pieces_of m) 0 (arguments_of m) ≡ ok (text_of m)
unfolding render arguments_of text_of in_front field_text
render-pieces_of Message.setting_up_irq = refl
render-pieces_of Message.irq_done = refl
render-pieces_of Message.setting_up_idt = refl
render-pieces_of Message.idt_done = refl
render-pieces_of (Message.received_irq irq) = rw (filled_nil (numeral 10 irq)) refl
render-pieces_of (Message.received_interrupt int_no) = rw (filled_nil (numeral 10 int_no)) refl
render-pieces_of Message.initializing_ata = refl
render-pieces_of (Message.memory_size bytes kib) =
    rw (filled_nil (numeral 10 bytes), filled_nil (numeral 10 kib)) refl
render-pieces_of (Message.first_available_address min_addr) =
    rw (filled_nil (numeral 16 min_addr)) refl
render-pieces_of Message.initializing_memory = refl
render-pieces_of Message.now_booting = refl
render-pieces_of Message.start_done = refl
render-pieces_of (Message.drive_disabled bus drive) = refl
render-pieces_of (Message.drive_online bus drive) = refl
render-pieces_of (Message.drive_model bus drive model) =
    rw (filled_nil (numeral 10 bus), filled_nil (numeral 10 drive)) refl
