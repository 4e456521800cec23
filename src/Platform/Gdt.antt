-- ===== src/Platform/Gdt.antt =====
-- kernel/platform/i386/gdt.c and gdt.h. The table is a list of five entries, and the address of
-- `g_gdt_entries` is a parameter. Loading the segment registers has no model.
pub mod Segments
use aeon_486_os.Base.{ℕ, ◌-◌, ◌*◌, ◌%◌, ◌^◌, ltb, if◌then◌else◌, List, ◌∷◌, length, replicate, set}
use aeon_486_os.Base.{Outcome, ok, fault, ◌>>=◌, bit_and, bit_or}
use aeon_486_os.Base.Word.{shr}
use aeon_486_os.Platform.Hal.{Trace, Event}

abbrev pub access_flag_code_segment_readable : ℕ
access_flag_code_segment_readable = 0x02

abbrev pub access_flag_data_segment_writable : ℕ
access_flag_data_segment_writable = 0x02

abbrev pub access_flag_is_executable : ℕ
access_flag_is_executable = 0x08

abbrev pub access_flag_is_code_or_data : ℕ
access_flag_is_code_or_data = 0x10

abbrev pub access_flag_ring_3 : ℕ
access_flag_ring_3 = 0x60

abbrev pub access_flag_is_present : ℕ
access_flag_is_present = 0x80

abbrev pub gdt_flag_is_32_bits : ℕ
gdt_flag_is_32_bits = 0x04

abbrev pub gdt_flag_4kb_granularity : ℕ
gdt_flag_4kb_granularity = 0x08

pub record GdtEntry : Type 0 where
  pub limit_low : ℕ
  pub base_low : ℕ
  pub base_middle : ℕ
  pub access_flags : ℕ
  pub limit_high : ℕ
  pub flags : ℕ
  pub base_high : ℕ

abbrev pub no_entry : GdtEntry
no_entry = record {
  limit_low = 0;
  base_low = 0;
  base_middle = 0;
  access_flags = 0;
  limit_high = 0;
  flags = 0;
  base_high = 0;
}

-- Each field keeps as many bits as gdt.h gives it.
unfoldable pub gdt_entry_of : (base limit access flags : ℕ) → GdtEntry
gdt_entry_of base limit access flags = record {
  limit_low = bit_and limit 0xFFFF % 2 ^ 16;
  base_low = bit_and base 0xFFFF % 2 ^ 16;
  base_middle = bit_and (shr base 16) 0xFF % 2 ^ 8;
  access_flags = access % 2 ^ 8;
  limit_high = bit_and (shr limit 16) 0x0F % 2 ^ 4;
  flags = flags % 2 ^ 4;
  base_high = bit_and (shr base 24) 0xFF % 2 ^ 8;
}

unfoldable pub gdt_set_gate :
    List GdtEntry → (num base limit access flags : ℕ) → Outcome (List GdtEntry)
gdt_set_gate entries num base limit access flags =
    if ltb num (length entries)
    then ok (set entries num (gdt_entry_of base limit access flags))
    else fault

abbrev pub code_access : ℕ
code_access =
    bit_or (bit_or access_flag_is_executable access_flag_code_segment_readable)
      (bit_or access_flag_is_code_or_data access_flag_is_present)

abbrev pub data_access : ℕ
data_access =
    bit_or (bit_or access_flag_data_segment_writable access_flag_is_code_or_data)
      access_flag_is_present

abbrev pub segment_flags : ℕ
segment_flags = bit_or gdt_flag_is_32_bits gdt_flag_4kb_granularity

pub record Gdt : Type 0 where
  pub entries : List GdtEntry
  pub trace : Trace

-- The five entries are zero before. `gdt_flush` loads the pointer to the table.
unfoldable pub gdt_init : (address : ℕ) → Trace → Outcome Gdt
unfolding gdt_set_gate gdt_entry_of
gdt_init address trace = do
  null ← gdt_set_gate (replicate 5 no_entry) 0 0 0 0 0
  code ← gdt_set_gate null 1 0 0xFFFFFFFF code_access segment_flags
  data_segment ← gdt_set_gate code 2 0 0xFFFFFFFF data_access segment_flags
  user_code ←
      gdt_set_gate data_segment 3 0 0xFFFFFFFF (bit_or code_access access_flag_ring_3) segment_flags
  user_data ←
      gdt_set_gate user_code 4 0 0xFFFFFFFF (bit_or data_access access_flag_ring_3) segment_flags
  ok (record { entries = user_data; trace = Event.lgdt (5 * 8 - 1) (address % 2 ^ 32) ∷ trace })
