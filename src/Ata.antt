-- ===== src/Ata.antt =====
-- kernel/drivers/block/ata.c: selecting a drive, the waiting loops, and reading a sector. The loops
-- that wait for a device have no bound in the source; here they have `fuel` rounds, and end with
-- `waiting` when these are used up.
pub mod Wait
pub mod Observed
pub mod Sector
pub mod Layout
pub mod Identify
mod Tests
use aeon_486_os.Base.{
  ℕ, zero, suc, ◌+◌, ◌*◌, ◌^◌, ◌%◌, bit_and, bit_or, ◌==◌, nonzero, if◌then◌else◌,
}
use aeon_486_os.Base.Word.{shr}
use aeon_486_os.Klibc.Memory.{Memory, store16}
use aeon_486_os.Platform.Hal.{Trace, Device, Reading, inportb, inportw, outportb}

abbrev pub ata_primary_io : ℕ
ata_primary_io = 0x1F0

abbrev pub ata_secondary_io : ℕ
ata_secondary_io = 0x170

abbrev pub ata_sr_bsy : ℕ
ata_sr_bsy = 0x80

abbrev pub ata_sr_drq : ℕ
ata_sr_drq = 0x08

abbrev pub ata_sr_err : ℕ
ata_sr_err = 0x01

abbrev pub ata_cmd_read_pio : ℕ
ata_cmd_read_pio = 0x20

abbrev pub ata_cmd_identify : ℕ
ata_cmd_identify = 0xEC

abbrev pub ata_primary : ℕ
ata_primary = 0x00

abbrev pub ata_secondary : ℕ
ata_secondary = 0x01

abbrev pub ata_master : ℕ
ata_master = 0x00

abbrev pub ata_slave : ℕ
ata_slave = 0x01

abbrev pub ata_reg_data : ℕ
ata_reg_data = 0x00

abbrev pub ata_reg_seccount0 : ℕ
ata_reg_seccount0 = 0x02

abbrev pub ata_reg_lba0 : ℕ
ata_reg_lba0 = 0x03

abbrev pub ata_reg_lba1 : ℕ
ata_reg_lba1 = 0x04

abbrev pub ata_reg_lba2 : ℕ
ata_reg_lba2 = 0x05

abbrev pub ata_reg_hddevsel : ℕ
ata_reg_hddevsel = 0x06

abbrev pub ata_reg_command : ℕ
ata_reg_command = 0x07

abbrev pub ata_reg_status : ℕ
ata_reg_status = 0x07

abbrev pub ata_reg_altstatus : ℕ
ata_reg_altstatus = 0x0C

-- How a routine that waits ends.
pub data Polled {ℓ} (A : Type ℓ) : Type ℓ where
  ready : A → Polled A
  device_failure : Polled A
  waiting : Polled A

-- The drive's port, and the trace.
unfoldable pub ata_select_drive : Trace → (bus drive : ℕ) → ℕ × Trace
ata_select_drive trace bus drive =
    let select = if drive == ata_master then 0xA0 else 0xB0 in
    if bus == ata_primary
    then (ata_primary_io, outportb trace (ata_primary_io + ata_reg_hddevsel) select)
    else (ata_secondary_io, outportb trace (ata_secondary_io + ata_reg_hddevsel) select)

-- `while (status & BSY)`: the first loop of `ata_poll_status`, and `ata_poll_status_busy`.
unfoldable pub poll_busy : (fuel : ℕ) → Device → Trace → (base_io : ℕ) → Polled Trace
poll_busy zero device trace base_io = waiting
poll_busy (suc fuel) device trace base_io =
    let status = inportb device trace (base_io + ata_reg_status) in
    let rest = poll_busy fuel device status.trace base_io in
    if nonzero (bit_and status.value ata_sr_bsy) then rest else ready status.trace

-- The second loop of `ata_poll_status`.
unfoldable pub poll_drq : (fuel : ℕ) → Device → Trace → (base_io : ℕ) → Polled Trace
poll_drq zero device trace base_io = waiting
poll_drq (suc fuel) device trace base_io =
    let status = inportb device trace (base_io + ata_reg_status) in
    let rest = poll_drq fuel device status.trace base_io in
    if nonzero (bit_and status.value ata_sr_err)
    then device_failure
    else if nonzero (bit_and status.value ata_sr_drq)
    then ready status.trace
    else rest

-- `count` reads of the alternate status, whose values are dropped.
unfoldable pub read_altstatus : (count : ℕ) → Device → Trace → (base_io : ℕ) → Trace
read_altstatus zero device trace base_io = trace
read_altstatus (suc count) device trace base_io =
    let status = inportb device trace (base_io + ata_reg_altstatus) in
    read_altstatus count device status.trace base_io

unfoldable pub ata_delay : Device → Trace → (base_io : ℕ) → Trace
unfolding read_altstatus
ata_delay device trace base_io = read_altstatus 4 device trace base_io

abbrev pub then_poll : Polled Trace → (Trace → Polled Trace) → Polled Trace
then_poll (ready trace) f = f trace
then_poll device_failure f = device_failure
then_poll waiting f = waiting

-- Each of the two loops has `fuel` rounds.
unfoldable pub ata_poll_status : (fuel : ℕ) → Device → Trace → (base_io : ℕ) → Polled Trace
ata_poll_status fuel device trace base_io =
    then_poll (poll_busy fuel device (read_altstatus 4 device trace base_io) base_io)
      (λ after. poll_drq fuel device after base_io)

pub record Transfer : Type 0 where
  pub memory : Memory
  pub trace : Trace

-- The loop that reads the words of a sector, at word `i`.
unfoldable pub read_words : (count : ℕ) → Device → Trace → Memory → (base_io dst i : ℕ) → Transfer
read_words zero device trace mem base_io dst i = record { memory = mem; trace = trace }
read_words (suc count) device trace mem base_io dst i =
    let word = inportw device trace (base_io + ata_reg_data) in
    read_words count device word.trace (store16 mem (dst + i * 2) word.value) base_io dst (i + 1)

-- The registers that `ata_read_sector` sets.
unfoldable pub read_command : Trace → (base_io device_select lba : ℕ) → Trace
read_command trace base_io device_select lba =
    let select =
      outportb trace (base_io + ata_reg_hddevsel)
        (bit_or device_select (bit_and (shr lba 24) 0x0F % 2 ^ 8)) in
    let features = outportb select (base_io + 1) 0x00 in
    let count = outportb features (base_io + ata_reg_seccount0) 1 in
    let lba0 = outportb count (base_io + ata_reg_lba0) (lba % 2 ^ 8) in
    let lba1 = outportb lba0 (base_io + ata_reg_lba1) (shr lba 8 % 2 ^ 8) in
    let lba2 = outportb lba1 (base_io + ata_reg_lba2) (shr lba 16 % 2 ^ 8) in
    outportb lba2 (base_io + ata_reg_command) ata_cmd_read_pio

-- The rest of `ata_read_sector` once the drive has been waited for.
unfoldable pub read_polled : Device → Memory → (base_io dst : ℕ) → Polled Trace → Polled Transfer
read_polled device mem base_io dst (ready polled) =
    let words = read_words 256 device polled mem base_io dst 0 in
    ready (record { memory = words.memory; trace = ata_delay device words.trace base_io })
read_polled device mem base_io dst device_failure = device_failure
read_polled device mem base_io dst waiting = waiting

unfoldable pub ata_read_sector :
    (fuel : ℕ) → Device → Trace → Memory → (bus drive lba dst : ℕ) → Polled Transfer
ata_read_sector fuel device trace mem bus drive lba dst =
    let device_select = if drive == ata_master then 0xE0 else 0xF0 in
    let base_io = if bus == ata_primary then ata_primary_io else ata_secondary_io in
    let command = read_command trace base_io device_select lba in
    read_polled device mem base_io dst (ata_poll_status fuel device command base_io)
