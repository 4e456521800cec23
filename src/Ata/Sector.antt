-- ===== src/Ata/Sector.antt =====
-- What `ata_read_sector` asks the drive for, and what it leaves in memory.
pub mod Read
use aeon_486_os.Base.{
  ℕ, zero, suc, ◌+◌, ◌-◌, ◌*◌, ◌/◌, ◌^◌, ◌%◌, ◌<◌, ◌≡◌, refl, arith, bit_and, bit_or, ◌∙◌, ◌==◌,
  ltb, leb, ◌&&◌, if◌then◌else◌, get_or, ap, ◌⊎◌, inl, inr, dec_lt, sym,
}
use aeon_486_os.Base.Word.Masks.{bit_and_low, bit_or_fields}
use aeon_486_os.Klibc.Memory.{Memory, store, store16}
use aeon_486_os.Platform.Hal.{Trace, Device, inportw, outportb, written}
use aeon_486_os.Ata.{
  ready, Transfer, read_words, read_command, ata_read_sector, read_polled, ata_poll_status,
  ata_primary_io, ata_secondary_io, ata_primary, ata_master, ata_delay,
}
use aeon_486_os.Ata.Wait.{IsReadyAfter, ata_poll_status-ready}

-- The byte of a halfword at an even or odd distance.
abbrev pub word_byte : (word k : ℕ) → ℕ
word_byte word k = if k % 2 == 0 then word % 256 else word / 256 % 256

-- The newest value that a port has been given.
abbrev pub newest : ℕ → Trace → ℕ
newest port trace = get_or (written port trace) 0 0

-- The four address registers of a drive, newest values, as one number of 28 bits.
abbrev pub lba_of : (base_io : ℕ) → Trace → ℕ
lba_of base_io trace =
    newest (base_io + 3) trace
    + newest (base_io + 4) trace * 2 ^ 8
    + newest (base_io + 5) trace * 2 ^ 16
    + newest (base_io + 6) trace % 16 * 2 ^ 24

-- The ports of the two buses.
abbrev pub IsBase : ℕ → Type 0
IsBase base_io = (base_io ≡ ata_primary_io) ⊎ (base_io ≡ ata_secondary_io)

-- The registers after the command, as the code computes their bytes.
registers :
    (trace : Trace) (base_io device_select lba : ℕ)
    → IsBase base_io
    → let after = read_command trace base_io device_select lba in
      (newest (base_io + 3) after ≡ lba % 2 ^ 8 % 2 ^ 8)
      × (newest (base_io + 4) after ≡ lba / 2 ^ 8 % 2 ^ 8 % 2 ^ 8)
      × (newest (base_io + 5) after ≡ lba / 2 ^ 16 % 2 ^ 8 % 2 ^ 8)
      × (newest (base_io + 6) after
          ≡ bit_or device_select (bit_and (lba / 2 ^ 24) 0x0F % 2 ^ 8) % 2 ^ 8)
      × (newest (base_io + 2) after ≡ 1)
      × (newest (base_io + 7) after ≡ 0x20)
unfolding read_command outportb written
registers trace base_io device_select lba (inl e) = rw e (refl, refl, refl, refl, refl, refl)
registers trace base_io device_select lba (inr e) = rw e (refl, refl, refl, refl, refl, refl)

-- Before its command `ata_read_sector` sets the address registers of the drive to the low 28 bits of
-- the sector's number and selects the drive by bit 4 of the last one; it asks for one sector, on
-- either bus.
pub read_command_lem :
    (trace : Trace) (base_io drive_bit lba : ℕ)
    → IsBase base_io
    → drive_bit < 2
    → let after = read_command trace base_io ((0xE + drive_bit) * 2 ^ 4) lba in
      (lba_of base_io after ≡ lba % 2 ^ 28)
      × (newest (base_io + 6) after / 2 ^ 4 ≡ 0xE + drive_bit)
      × (newest (base_io + 2) after ≡ 1)
      × (newest (base_io + 7) after ≡ 0x20)
read_command_lem trace base_io drive_bit lba base small =
    let (r3, r4, r5, r6, r2, r7) = registers trace base_io ((0xE + drive_bit) * 2 ^ 4) lba base in
    let low = bit_and_low 4 (lba / 2 ^ 24) in
    let top : bit_and (lba / 2 ^ 24) 0x0F % 2 ^ 8 ≡ lba / 2 ^ 24 % 16 = omega arith in
    let fields = bit_or_fields 4 (0xE + drive_bit) (lba / 2 ^ 24 % 16) (omega arith) in
    let select : newest (base_io + 6) _ ≡ (0xE + drive_bit) * 16 + lba / 2 ^ 24 % 16 =
      r6 ∙ rw top (omega (arith, fields)) in
    (omega (arith, r3, r4, r5, select), omega (arith, select), r2, r7)

-- What the data register gives when word `n` is read, if the trace is `trace` before the first.
unfoldable pub after_words : Device → Trace → (base_io n : ℕ) → Trace
after_words device trace base_io zero = trace
after_words device trace base_io (suc n) =
    (inportw device (after_words device trace base_io n) (base_io + 0)).trace

abbrev pub word_of : Device → Trace → (base_io n : ℕ) → ℕ
word_of device trace base_io n =
    (inportw device (after_words device trace base_io n) (base_io + 0)).value

store16_word :
    (mem : Memory) (p word x : ℕ)
    → store16 mem p word x ≡ (if leb p x && ltb x (p + 2) then word_byte word (x - p) else mem x)
unfolding store16 store
store16_word mem p word x = ground arith

after_words-suc :
    (device : Device) (trace : Trace) (base_io n : ℕ)
    → after_words device trace base_io (n + 1)
      ≡ (inportw device (after_words device trace base_io n) (base_io + 0)).trace
unfolding after_words
after_words-suc device trace base_io n =
    let next : n + 1 ≡ suc n = omega arith in ap (after_words device trace base_io) next

-- The memory with the words from `i` on, up to `last`.
abbrev pub filled : (words : ℕ → ℕ) (before dst i last x : ℕ) → ℕ
filled words before dst i last x =
    if leb (dst + i * 2) x && ltb x (dst + last * 2)
    then word_byte (words ((x - dst) / 2)) (x - dst)
    else before

filled-suc :
    (words : ℕ → ℕ) (mem : Memory) (dst i last x : ℕ)
    → i < last
    → filled words (store16 mem (dst + i * 2) (words i) x) dst (i + 1) last x
      ≡ filled words (mem x) dst i last x
filled-suc words mem dst i last x room = elim (dec_lt x (dst + (i + 1) * 2)) [
  | yes near ↦ elim (dec_lt x (dst + i * 2)) [
    | yes below ↦ ground (arith, store16_word mem (dst + i * 2) (words i) x)
    | no here ↦
        let word : (x - dst) / 2 ≡ i = omega arith in
        let parity : (x - dst) % 2 ≡ (x - (dst + i * 2)) % 2 = omega arith in
        rw word (ground (arith, store16_word mem (dst + i * 2) (words i) x))
  ]
  | no far ↦ ground (arith, store16_word mem (dst + i * 2) (words i) x)
]

pub read_words_lem :
    (count : ℕ) (device : Device) (trace : Trace) (mem : Memory) (base_io dst i x : ℕ)
    → (read_words count device (after_words device trace base_io i) mem base_io dst i).memory x
      ≡ filled (word_of device trace base_io) (mem x) dst i (i + count) x
unfolding read_words
read_words_lem zero device trace mem base_io dst i x = ground arith
read_words_lem (suc count) device trace mem base_io dst i x =
    let word = word_of device trace base_io i in
    let stored = store16 mem (dst + i * 2) word in
    let total : i + 1 + count ≡ i + suc count = omega arith in
    ap (λ t. (read_words count device t stored base_io dst (i + 1)).memory x)
      (sym (after_words-suc device trace base_io i))
    ∙ read_words_lem count device trace stored base_io dst (i + 1) x
    ∙ rw total (filled-suc (word_of device trace base_io) mem dst i (i + suc count) x (omega arith))

-- The trace behind the words.
pub trace-read_words :
    (count : ℕ) (device : Device) (trace : Trace) (mem : Memory) (base_io dst i : ℕ)
    → (read_words count device (after_words device trace base_io i) mem base_io dst i).trace
      ≡ after_words device trace base_io (i + count)
unfolding read_words
trace-read_words zero device trace mem base_io dst i =
    ap (after_words device trace base_io) (omega arith)
trace-read_words (suc count) device trace mem base_io dst i =
    let stored = store16 mem (dst + i * 2) (word_of device trace base_io i) in
    let total : i + 1 + count ≡ i + suc count = omega arith in
    ap (λ t. (read_words count device t stored base_io dst (i + 1)).trace)
      (sym (after_words-suc device trace base_io i))
    ∙ trace-read_words count device trace stored base_io dst (i + 1)
    ∙ ap (after_words device trace base_io) total

-- The port of a bus, and the byte that selects a drive.
abbrev pub base_of : ℕ → ℕ
base_of bus = if bus == ata_primary then ata_primary_io else ata_secondary_io

abbrev pub select_of : ℕ → ℕ
select_of drive = if drive == ata_master then 0xE0 else 0xF0
