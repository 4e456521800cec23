-- ===== src/Ata/Sector/Read.antt =====
-- `ata_read_sector` as a whole.
use aeon_486_os.Base.{
  ℕ, ◌+◌, ◌*◌, ◌/◌, ◌^◌, ◌%◌, ◌<◌, ◌≡◌, refl, arith, ◌∙◌, ◌==◌, if◌then◌else◌, ap, inl, inr, ◌∷◌,
  Bool-cases, sym, subst,
}
use aeon_486_os.Klibc.Memory.{Memory}
use aeon_486_os.Platform.Hal.{Trace, Device, Event, written, outportb}
use aeon_486_os.Ata.{
  ready, Transfer, read_words, read_command, ata_read_sector, read_polled, ata_delay,
}
use aeon_486_os.Ata.Wait.{IsReadyAfter, ata_poll_status-ready}
use aeon_486_os.Ata.Observed.{IsSeenReady, ata_poll_status-seen}
use aeon_486_os.Ata.Sector.{
  newest, lba_of, IsBase, read_command_lem, after_words, word_of, filled, read_words_lem, base_of,
  select_of,
}

-- The registers of a bus ask for one sector: its number in 28 bits, the drive, and as the newest event
-- the command to read, which is the only one since `trace`.
pub record IsAsked (base_io drive lba : ℕ) (trace command : Trace) : Type 0 where
  pub sector : lba_of base_io command ≡ lba % 2 ^ 28
  pub selected : newest (base_io + 6) command / 2 ^ 4 ≡ (if drive == 0 then 0xE else 0xF)
  pub count : newest (base_io + 2) command ≡ 1
  pub commands : written (base_io + 7) command ≡ 0x20 ∷ written (base_io + 7) trace
  pub newest_event : (rest : Trace) × (command ≡ Event.out_port (base_io + 7) 0x20 ∷ rest)

commands-read_command :
    (trace : Trace) (base_io device_select lba : ℕ)
    → IsBase base_io
    → written (base_io + 7) (read_command trace base_io device_select lba)
      ≡ 0x20 ∷ written (base_io + 7) trace
unfolding read_command outportb written
commands-read_command trace base_io device_select lba base =
    let IsCommand = λ (b : ℕ).
      written (b + 7) (read_command trace b device_select lba) ≡ 0x20 ∷ written (b + 7) trace in
    elim base [ inl e ↦ subst IsCommand (sym e) refl | inr e ↦ subst IsCommand (sym e) refl ]

command_event :
    (rest : Trace) (p q : ℕ)
    → p ≡ q
    → (before : Trace) × (◌≡◌ {A = Trace}
        (Event.out_port p 0x20 ∷ rest)
        (Event.out_port q 0x20 ∷ before))
command_event rest p q e = (rest, ap (λ (port : ℕ). Event.out_port port 0x20 ∷ rest) e)

newest-read_command :
    (trace : Trace) (base_io device_select lba : ℕ)
    → base_io < 0x1000
    → (rest : Trace) × (read_command trace base_io device_select lba
        ≡ Event.out_port (base_io + 7) 0x20 ∷ rest)
unfolding read_command outportb
newest-read_command trace base_io device_select lba fits =
    let port : (base_io + 7) % 2 ^ 16 ≡ base_io + 7 = omega arith in
    command_event _ ((base_io + 7) % 2 ^ 16) (base_io + 7) port

base_of-IsBase : (bus : ℕ) → IsBase (base_of bus)
base_of-IsBase bus = elim (Bool-cases (bus == 0)) [
  | inl primary ↦ inl (rw primary refl)
  | inr secondary ↦ inr (rw secondary refl)
]

abbrev drive_bit : ℕ → ℕ
drive_bit drive = if drive == 0 then 0 else 1

read_command-IsAsked :
    (trace : Trace) (bus drive lba : ℕ)
    → IsAsked (base_of bus) drive lba trace (read_command trace (base_of bus) (select_of drive) lba)
read_command-IsAsked trace bus drive lba =
    let select : (0xE + drive_bit drive) * 2 ^ 4 ≡ select_of drive = ground arith in
    let base = base_of-IsBase bus in
    let (sector, selected, count, order) =
      read_command_lem trace (base_of bus) (drive_bit drive) lba base (ground arith) in
    let at = λ (n : ℕ). read_command trace (base_of bus) n lba in
    record {
      sector = ap (λ (n : ℕ). lba_of (base_of bus) (at n)) (sym select) ∙ sector;
      selected =
          ap (λ (n : ℕ). newest (base_of bus + 6) (at n) / 2 ^ 4) (sym select)
          ∙ selected
          ∙ ground arith;
      count = ap (λ (n : ℕ). newest (base_of bus + 2) (at n)) (sym select) ∙ count;
      commands = commands-read_command trace (base_of bus) (select_of drive) lba base;
      newest_event = newest-read_command trace (base_of bus) (select_of drive) lba (ground arith);
    }

-- `ata_read_sector` ends, provided that the drive never reports an error, that it is ready once `bound`
-- events have been, and that the fuel is more than `bound`. It has then asked that drive on that bus for
-- the one sector whose number is the low 28 bits of `lba`; has read a status that is not busy and then
-- one with data and without an error; and has left at `dst` the 256 words that the data port gives from
-- there on, each low byte first. No other byte of the memory changes.
pub ata_read_sector_lem :
    (fuel : ℕ) (device : Device) (trace : Trace) (mem : Memory) (bus drive lba dst bound x : ℕ)
    → IsReadyAfter device (base_of bus + 7) bound
    → bound < fuel
    → (command : Trace) × (start : Trace) × (done : Transfer) × IsAsked
        (base_of bus)
        drive
        lba
        trace
        command
      × IsSeenReady device (base_of bus + 7) command start
      × (ata_read_sector fuel device trace mem bus drive lba dst ≡ ready done)
      × (done.memory x ≡ filled (word_of device start (base_of bus)) (mem x) dst 0 256 x)
unfolding ata_read_sector read_polled after_words
ata_read_sector_lem fuel device trace mem bus drive lba dst bound x contract enough =
    let small : base_of bus < 0x1000 = ground arith in
    let command = read_command trace (base_of bus) (select_of drive) lba in
    let (start, polled) =
      ata_poll_status-ready device (base_of bus) bound small contract fuel command enough in
    let words = read_words 256 device start mem (base_of bus) dst 0 in
    (
      command,
      start,
      record { memory = words.memory; trace = ata_delay device words.trace (base_of bus) },
      read_command-IsAsked trace bus drive lba,
      ata_poll_status-seen device (base_of bus) small fuel command polled,
      ap (read_polled device mem (base_of bus) dst) polled,
      read_words_lem 256 device start mem (base_of bus) dst 0 x,
    )
