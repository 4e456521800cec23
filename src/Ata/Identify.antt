-- ===== src/Ata/Identify.antt =====
-- kernel/drivers/block/ata.c: finding the drives. `g_ata_info` is a function from bus and drive to what
-- is known of the drive, the sector buffer a memory of its own from address 0 on.
pub mod Found
pub mod Ready
pub mod Other
pub mod Probe
pub mod Log
use Prim.Native.String.{String}
use aeon_486_os.Base.{
  ℕ, zero, suc, ◌+◌, ◌*◌, ◌/◌, ◌^◌, ◌%◌, List, [], ◌∷◌, bit_and, ◌==◌, ◌&&◌, nonzero, if◌then◌else◌,
  Bool, true, false, set, replicate, Outcome, ok, ◌>>=◌,
}
use aeon_486_os.Klibc.Memory.{Memory}
use aeon_486_os.Platform.Hal.{Trace, Device, Message, inportb, outportb, kprintf}
use aeon_486_os.Memory.Allocator.{Kernel, kmalloc}
use aeon_486_os.Ata.{
  Polled, ready, device_failure, waiting, ata_select_drive, poll_busy, read_words, ata_sr_err,
  ata_sr_drq, ata_reg_seccount0, ata_reg_lba0, ata_reg_lba1, ata_reg_lba2, ata_reg_command,
  ata_reg_status, ata_primary, ata_secondary, ata_master, ata_slave, ata_cmd_identify,
}
use aeon_486_os.Ata.Layout.{Part, bytes, struct_size}
use aeon_486_os.Ata.Layout.DeviceData.{device_data_offset}

pub record DriveInfo : Type 0 where
  pub available : ℕ
  pub model : List ℕ
  pub cylinders : ℕ
  pub heads : ℕ
  pub sectors_per_track : ℕ
  pub total_sectors : ℕ
  pub buffer : Memory

-- The members of `ata_drive_info_t`, for its size.
abbrev pub ata_drive_info : List (String × Part)
ata_drive_info =
    ("available", bytes 1 1)
    ∷ ("model", bytes 1 41)
    ∷ ("cylinders", bytes 2 2)
    ∷ ("heads", bytes 2 2)
    ∷ ("sectors_per_track", bytes 2 2)
    ∷ ("total_sectors", bytes 4 4)
    ∷ ("buffer", bytes 1 512)
    ∷ []

-- `sizeof (ata_info_t)`, which has four of them.
unfoldable pub ata_info_size : ℕ
ata_info_size = 2 * 2 * (struct_size ata_drive_info / 8)

abbrev pub AtaInfo : Type 0
AtaInfo = ℕ → ℕ → DriveInfo

-- `g_ata_info->drive[bus][drive]`, changed.
abbrev pub set_drive : AtaInfo → (bus drive : ℕ) → DriveInfo → AtaInfo
set_drive info bus drive d = λ b e. if b == bus && e == drive then d else info b e

-- What `memset` leaves of a drive.
abbrev pub no_drive : DriveInfo
no_drive = record {
  available = 0;
  model = replicate 41 0;
  cylinders = 0;
  heads = 0;
  sectors_per_track = 0;
  total_sectors = 0;
  buffer = λ x. 0;
}

abbrev pub load16 : Memory → ℕ → ℕ
load16 mem p = mem p + mem (p + 1) * 2 ^ 8

abbrev pub load32 : Memory → ℕ → ℕ
load32 mem p = load16 mem p + load16 mem (p + 2) * 2 ^ 16

-- The registers that `ata_identify` sets.
unfoldable pub identify_command : Trace → (io : ℕ) → Trace
identify_command trace io =
    let count = outportb trace (io + ata_reg_seccount0) 0 in
    let lba0 = outportb count (io + ata_reg_lba0) 0 in
    let lba1 = outportb lba0 (io + ata_reg_lba1) 0 in
    let lba2 = outportb lba1 (io + ata_reg_lba2) 0 in
    outportb lba2 (io + ata_reg_command) ata_cmd_identify

-- The loop that waits for data: `true` with data, `false` with an error.
unfoldable pub identify_poll : (fuel : ℕ) → Device → Trace → (io : ℕ) → Polled (Bool × Trace)
identify_poll zero device trace io = waiting
identify_poll (suc fuel) device trace io =
    let status = inportb device trace (io + ata_reg_status) in
    let rest = identify_poll fuel device status.trace io in
    if nonzero (bit_and status.value ata_sr_err)
    then ready (false, status.trace)
    else if nonzero (bit_and status.value ata_sr_drq)
    then ready (true, status.trace)
    else rest

-- The loop that copies the name, with `count` rounds to go; each changes the places of two characters.
unfoldable pub copy_model : (buffer : Memory) → (count i : ℕ) → (model : List ℕ) → List ℕ
copy_model buffer zero i model = model
copy_model buffer (suc count) i model =
    let number = device_data_offset "model_number" in
    copy_model buffer count (i + 2)
      (set (set model i (buffer (number + (i + 1)))) (i + 1) (buffer (number + i)))

-- The drive after its 256 words have been read into `buffer`.
unfoldable pub drive_of : DriveInfo → (buffer : Memory) → DriveInfo
drive_of current_drive buffer = record {
  available = 1;
  model = set (copy_model buffer 20 0 current_drive.model) 40 0;
  cylinders = load16 buffer (device_data_offset "num_cylinders");
  heads = load16 buffer (device_data_offset "num_heads");
  sectors_per_track = load16 buffer (device_data_offset "current_sectors_per_track");
  total_sectors = load32 buffer (device_data_offset "current_sector_capacity");
  buffer = buffer;
}

-- The rest of `ata_identify` once the loop has ended.
unfoldable pub identify_polled :
    Device → AtaInfo → (bus drive io : ℕ) → Polled (Bool × Trace) → Polled (AtaInfo × Trace)
identify_polled device info bus drive io (ready (false, trace)) =
    ready (info, kprintf trace (Message.drive_disabled bus drive))
identify_polled device info bus drive io (ready (true, trace)) =
    let online = kprintf trace (Message.drive_online bus drive) in
    let words = read_words 256 device online (info bus drive).buffer io 0 0 in
    ready (set_drive info bus drive (drive_of (info bus drive) words.memory), words.trace)
identify_polled device info bus drive io device_failure = device_failure
identify_polled device info bus drive io waiting = waiting

-- The same from the end of `ata_poll_status_busy` on.
unfoldable pub identify_idle :
    (fuel : ℕ) → Device → AtaInfo → (bus drive io : ℕ) → Polled Trace → Polled (AtaInfo × Trace)
identify_idle fuel device info bus drive io (ready trace) =
    identify_polled device info bus drive io (identify_poll fuel device trace io)
identify_idle fuel device info bus drive io device_failure = device_failure
identify_idle fuel device info bus drive io waiting = waiting

-- Each of the two loops that wait has `fuel` rounds.
unfoldable pub ata_identify :
    (fuel : ℕ) → Device → AtaInfo → Trace → (bus drive : ℕ) → Polled (AtaInfo × Trace)
ata_identify fuel device info trace bus drive =
    let (io, selected) = ata_select_drive trace bus drive in
    let status = inportb device (identify_command selected io) (io + ata_reg_status) in
    if nonzero status.value
    then identify_idle fuel device info bus drive io (poll_busy fuel device status.trace io)
    else ready (info, status.trace)

infixl 5 ◌then_identify◌
abbrev pub ◌then_identify◌ :
    Polled (AtaInfo × Trace)
    → (AtaInfo → Trace → Polled (AtaInfo × Trace))
    → Polled (AtaInfo × Trace)
ready (info, trace) then_identify f = f info trace
device_failure then_identify f = device_failure
waiting then_identify f = waiting

unfoldable pub ata_probe : (fuel : ℕ) → Device → AtaInfo → Trace → Polled (AtaInfo × Trace)
ata_probe fuel device info trace =
    ata_identify fuel device info trace ata_primary ata_master
    then_identify (λ info1 t1. ata_identify fuel device info1 t1 ata_primary ata_slave)
    then_identify (λ info2 t2. ata_identify fuel device info2 t2 ata_secondary ata_master)
    then_identify (λ info3 t3. ata_identify fuel device info3 t3 ata_secondary ata_slave)

-- The block that `kmalloc` returns is filled with 0. Its address is the pointer `g_ata_info`.
pub record AtaStart : Type 0 where
  pub kernel : Kernel
  pub g_ata_info : ℕ
  pub probed : Polled (AtaInfo × Trace)

unfoldable pub ata_init : (fuel : ℕ) → Device → Kernel → Trace → Outcome AtaStart
ata_init fuel device kernel trace = do
  let started = kprintf trace Message.initializing_ata
  block ← kmalloc kernel ata_info_size
  ok (record {
    kernel = block.1;
    g_ata_info = block.0;
    probed = ata_probe fuel device (λ bus drive. no_drive) started;
  })

unfoldable pub ata_print_single_info : AtaInfo → Trace → (bus drive : ℕ) → Trace
ata_print_single_info info trace bus drive =
    if nonzero (info bus drive).available
    then kprintf trace (Message.drive_model bus drive (info bus drive).model)
    else trace

unfoldable pub ata_print_info : AtaInfo → Trace → Trace
ata_print_info info trace =
    let t1 = ata_print_single_info info trace ata_primary ata_master in
    let t2 = ata_print_single_info info t1 ata_primary ata_slave in
    let t3 = ata_print_single_info info t2 ata_secondary ata_master in
    ata_print_single_info info t3 ata_secondary ata_slave
