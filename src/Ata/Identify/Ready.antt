-- ===== src/Ata/Identify/Ready.antt =====
-- `ata_identify` for a drive that is there.
use aeon_486_os.Base.{
  ℕ, zero, suc, ◌+◌, ◌/◌, ◌^◌, ◌%◌, ◌<◌, ◌≡◌, ◌≢◌, ◌⊎◌, refl, arith, ◌∙◌, ap, sym, subst, ◌∷◌,
  length, Bool, true, false, ◌==◌, if◌then◌else◌, bit_and, nonzero, Bool-cases, inl, inr,
}
use aeon_486_os.Klibc.Memory.{Memory}
use aeon_486_os.Platform.Hal.{
  Trace, Device, Event, Message, inportb, inportw, outportb, in_width, kprintf,
}
use aeon_486_os.Ata.{
  Polled, ready, device_failure, waiting, poll_busy, poll_drq, read_words, ata_select_drive,
  ata_primary, ata_master, ata_reg_hddevsel,
}
use aeon_486_os.Ata.Wait.{IsReadyAfter, poll_busy-ready, poll_drq-ready}
use aeon_486_os.Ata.Sector.{
  base_of, word_of, word_byte, after_words, read_words_lem, trace-read_words,
}
use aeon_486_os.Ata.Identify.{
  AtaInfo, DriveInfo, set_drive, drive_of, identify_command, identify_poll, identify_polled,
  identify_idle, ata_identify,
}
use aeon_486_os.Ata.Identify.Found.{IsFound, drive_of-IsFound}

-- `ata_poll_status` and `ata_identify` wait for data in the same way, and differ in what they do on an
-- error.
as_drq : Polled (Bool × Trace) → Polled Trace
as_drq (ready (true, trace)) = ready trace
as_drq (ready (false, trace)) = device_failure
as_drq device_failure = device_failure
as_drq waiting = waiting

as_drq-identify_poll :
    (fuel : ℕ) (device : Device) (trace : Trace) (io : ℕ)
    → as_drq (identify_poll fuel device trace io) ≡ poll_drq fuel device trace io
unfolding as_drq identify_poll poll_drq
as_drq-identify_poll zero device trace io = refl
as_drq-identify_poll (suc fuel) device trace io =
    let status = inportb device trace (io + 7) in
    elim (Bool-cases (nonzero (bit_and status.value 0x01))) [
      | inl err ↦ rw err refl
      | inr fine ↦ elim (Bool-cases (nonzero (bit_and status.value 0x08))) [
        | inl data_there ↦ rw (fine, data_there) refl
        | inr missing ↦ rw (fine, missing) (as_drq-identify_poll fuel device status.trace io)
      ]
    ]

as_drq-ready :
    (polled : Polled (Bool × Trace)) (after : Trace)
    → as_drq polled ≡ ready after
    → polled ≡ ready (true, after)
unfolding as_drq
as_drq-ready (ready (true, trace)) after e = cc
as_drq-ready (ready (false, trace)) after e = cc
as_drq-ready device_failure after e = cc
as_drq-ready waiting after e = cc

identify_poll-ready :
    (fuel : ℕ) (device : Device) (trace after : Trace) (io : ℕ)
    → poll_drq fuel device trace io ≡ ready after
    → identify_poll fuel device trace io ≡ ready (true, after)
identify_poll-ready fuel device trace after io runs =
    as_drq-ready (identify_poll fuel device trace io) after
      (as_drq-identify_poll fuel device trace io ∙ runs)

-- The trace after `ata_select_drive`.
abbrev pub select_trace : Trace → (bus drive : ℕ) → Trace
select_trace trace bus drive =
    outportb trace (base_of bus + ata_reg_hddevsel) (if drive == ata_master then 0xA0 else 0xB0)

selected :
    (trace : Trace) (bus drive : ℕ)
    → ata_select_drive trace bus drive ≡ (base_of bus, select_trace trace bus drive)
unfolding ata_select_drive
selected trace bus drive = elim (Bool-cases (bus == ata_primary)) [
  | inl first ↦ rw first refl
  | inr second ↦ rw second refl
]

-- The trace after the first status of `ata_identify`.
abbrev pub asked : Device → Trace → (bus drive : ℕ) → Trace
asked device trace bus drive =
    let command = identify_command (select_trace trace bus drive) (base_of bus) in
    Event.in_port (base_of bus + 7) (device command (base_of bus + 7) % 2 ^ 8) ∷ command

base_small : (bus : ℕ) → base_of bus < 0x1000
base_small bus = ground arith

-- The first status decides whether there is a drive.
pub ata_identify-status :
    (fuel : ℕ) (device : Device) (info : AtaInfo) (trace : Trace) (bus drive : ℕ)
    → let command = identify_command (select_trace trace bus drive) (base_of bus) in
      let next = asked device trace bus drive in
      ata_identify fuel device info trace bus drive ≡ (
        if nonzero (device command (base_of bus + 7) % 2 ^ 8)
        then identify_idle fuel device info bus drive
            (base_of bus)
            (poll_busy fuel device next (base_of bus))
        else ready (info, next))
unfolding ata_identify inportb in_width
ata_identify-status fuel device info trace bus drive =
    let port : (base_of bus + 7) % 2 ^ 16 ≡ base_of bus + 7 = omega (arith, base_small bus) in
    rw (selected trace bus drive, port) refl

-- A drive that is ready in time: there is a drive, and it will have data.
pub record IsPresent (device : Device) (port bound : ℕ) : Type 0 where
  pub status : (t : Trace) → nonzero (device t port % 2 ^ 8) ≡ true
  pub ready_after : IsReadyAfter device port bound

filled-HoldsWords :
    (device : Device) (start : Trace) (mem : Memory) (io x : ℕ)
    → x < 512
    → (read_words 256 device start mem io 0 0).memory x
      ≡ word_byte (word_of device start io (x / 2)) x
unfolding after_words
filled-HoldsWords device start mem io x inside =
    read_words_lem 256 device start mem io 0 0 x ∙ ground arith

word_of-lt : (device : Device) (start : Trace) (io k : ℕ) → word_of device start io k < 2 ^ 16
unfolding inportw in_width
word_of-lt device start io k = omega arith

set_drive_self :
    (info : AtaInfo) (bus drive : ℕ) (d : DriveInfo) → set_drive info bus drive d bus drive ≡ d
set_drive_self info bus drive d = ground arith

pub set_drive_other :
    (info : AtaInfo) (bus drive b e : ℕ) (d : DriveInfo)
    → (b ≢ bus) ⊎ (e ≢ drive)
    → set_drive info bus drive d b e ≡ info b e
set_drive_other info bus drive b e d other = ground arith

-- What `ata_identify` does once the drive has data.
identify_idle-data :
    (fuel : ℕ) (device : Device) (info : AtaInfo) (bus drive io : ℕ) (next idle after : Trace)
    → poll_busy fuel device next io ≡ ready idle
    → identify_poll fuel device idle io ≡ ready (true, after)
    → let start = kprintf after (Message.drive_online bus drive) in
      let words = read_words 256 device start (info bus drive).buffer io 0 0 in
      identify_idle fuel device info bus drive io (poll_busy fuel device next io)
      ≡ ready (
        set_drive info bus drive (drive_of (info bus drive) words.memory),
        after_words device start io 256,
      )
unfolding identify_idle identify_polled after_words
identify_idle-data fuel device info bus drive io next idle after runs polled =
    let start = kprintf after (Message.drive_online bus drive) in
    let words = read_words 256 device start (info bus drive).buffer io 0 0 in
    let found = set_drive info bus drive (drive_of (info bus drive) words.memory) in
    ap (identify_idle fuel device info bus drive io) runs
    ∙ ap (identify_polled device info bus drive io) polled
    ∙ ap (λ t. ready (found, t)) (trace-read_words 256 device start (info bus drive).buffer io 0 0)

-- `ata_identify` ends for a drive that answers and is ready once `bound` events have been, and takes
-- what the 256 words that it reads last say of the drive.
pub ata_identify-ready :
    (fuel : ℕ) (device : Device) (info : AtaInfo) (trace : Trace) (bus drive bound : ℕ)
    → IsPresent device (base_of bus + 7) bound
    → length (info bus drive).model ≡ 41
    → bound < fuel
    → (found : AtaInfo) × (start : Trace) × (ata_identify fuel device info trace bus drive
        ≡ ready (found, after_words device start (base_of bus) 256))
      × IsFound (word_of device start (base_of bus)) (found bus drive)
ata_identify-ready zero device info trace bus drive bound present size enough = absurd (omega arith)
ata_identify-ready (suc fuel) device info trace bus drive bound present size enough =
    let io = base_of bus in
    let next = asked device trace bus drive in
    let contract = present.ready_after in
    let (idle, runs, longer) =
      poll_busy-ready device io bound (base_small bus) contract fuel next (omega arith) in
    let (after, drq) =
      poll_drq-ready device io bound (base_small bus) contract fuel idle (omega arith) in
    let polled = identify_poll-ready (suc fuel) device idle after io drq in
    let start = kprintf after (Message.drive_online bus drive) in
    let buffer = (read_words 256 device start (info bus drive).buffer io 0 0).memory in
    let w = word_of device start io in
    let d = drive_of (info bus drive) buffer in
    let is_found =
      drive_of-IsFound w buffer (word_of-lt device start io)
        (filled-HoldsWords device start (info bus drive).buffer io) (info bus drive) size in
    (
      set_drive info bus drive d,
      start,
      ata_identify-status (suc fuel) device info trace bus drive
          ∙ rw (present.status (identify_command (select_trace trace bus drive) io))
              (identify_idle-data (suc fuel) device info bus drive io next idle after runs polled),
      subst (IsFound w) (sym (set_drive_self info bus drive d)) is_found,
    )
