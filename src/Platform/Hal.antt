-- ===== src/Platform/Hal.antt =====
-- kernel/platform/i386/hal.c. The machine is seen through what the kernel does to it, the newest
-- event first. A device is a parameter: the number that a port gives when it is read, after the
-- events before. A call of `kprintf` is an event too.
use aeon_486_os.Base.{ℕ, ◌%◌, ◌^◌, ◌==◌, if◌then◌else◌, List, [], ◌∷◌}

-- The calls of `kprintf` in irq.c, idt.c, ata.c, memory.c and main.c, with their arguments.
pub data Message : Type 0 where
  setting_up_irq irq_done setting_up_idt idt_done : Message
  received_irq received_interrupt : ℕ → Message
  initializing_ata : Message
  memory_size : (bytes kib : ℕ) → Message
  first_available_address : ℕ → Message
  initializing_memory now_booting start_done : Message
  drive_disabled drive_online : (bus drive : ℕ) → Message
  drive_model : (bus drive : ℕ) (model : List ℕ) → Message

pub data Event : Type 0 where
  in_port : (port value : ℕ) → Event
  out_port : (port value : ℕ) → Event
  printed : Message → Event
  lgdt lidt : (limit base : ℕ) → Event

abbrev pub Trace : Type 0
Trace = List Event

-- What a device answers on a port.
abbrev pub Device : Type 0
Device = Trace → ℕ → ℕ

-- A port operation that returns a value.
pub record Reading : Type 0 where
  pub value : ℕ
  pub trace : Trace

-- The processor reads `width` bits of a port.
unfoldable pub in_width : ℕ → Device → Trace → ℕ → Reading
in_width width device trace port =
    let value = device trace port % 2 ^ width in
    record { value = value; trace = in_port port value ∷ trace }

unfoldable pub inportb : Device → Trace → ℕ → Reading
unfolding in_width
inportb device trace port = in_width 8 device trace (port % 2 ^ 16)

unfoldable pub inportw : Device → Trace → ℕ → Reading
unfolding in_width
inportw device trace port = in_width 16 device trace (port % 2 ^ 16)

unfoldable pub inportl : Device → Trace → ℕ → Reading
unfolding in_width
inportl device trace port = in_width 32 device trace (port % 2 ^ 16)

unfoldable pub outportb : Trace → ℕ → ℕ → Trace
outportb trace port value = out_port (port % 2 ^ 16) (value % 2 ^ 8) ∷ trace

unfoldable pub outportw : Trace → ℕ → ℕ → Trace
outportw trace port value = out_port (port % 2 ^ 16) (value % 2 ^ 16) ∷ trace

unfoldable pub outportl : Trace → ℕ → ℕ → Trace
outportl trace port value = out_port (port % 2 ^ 16) (value % 2 ^ 32) ∷ trace

unfoldable pub io_wait : Trace → Trace
unfolding outportb
io_wait trace = outportb trace 0x80 0

unfoldable pub kprintf : Trace → Message → Trace
kprintf trace message = printed message ∷ trace

-- What has been written to a port, the newest first.
unfoldable pub written : ℕ → Trace → List ℕ
written port [] = []
written port (out_port p value ∷ trace) =
    if p == port then value ∷ written port trace else written port trace
written port (in_port p value ∷ trace) = written port trace
written port (printed message ∷ trace) = written port trace
written port (lgdt limit base ∷ trace) = written port trace
written port (lidt limit base ∷ trace) = written port trace
