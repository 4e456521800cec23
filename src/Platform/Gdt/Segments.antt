-- ===== src/Platform/Gdt/Segments.antt =====
-- The descriptors of gdt.c as the processor reads them.
use aeon_486_os.Base.{ℕ, ◌+◌, ◌*◌, ◌%◌, ◌/◌, ◌^◌, ◌≡◌, refl, arith, ok, [], ◌∷◌, map, ◌<◌}
use aeon_486_os.Base.Word.Masks.{bit_and_low}
use aeon_486_os.Platform.Hal.{Trace}
use aeon_486_os.Platform.Gdt.{GdtEntry, gdt_entry_of, gdt_set_gate, gdt_init, Gdt}

-- The eight bytes of an entry, in the order of its fields in memory, as one number.
abbrev pub descriptor : GdtEntry → ℕ
descriptor e =
    e.limit_low
    + e.base_low * 2 ^ 16
    + e.base_middle * 2 ^ 32
    + e.access_flags * 2 ^ 40
    + e.limit_high * 2 ^ 48
    + e.flags * 2 ^ 52
    + e.base_high * 2 ^ 56

abbrev pub base_of : GdtEntry → ℕ
base_of e = e.base_low + e.base_middle * 2 ^ 16 + e.base_high * 2 ^ 24

abbrev pub limit_of : GdtEntry → ℕ
limit_of e = e.limit_low + e.limit_high * 2 ^ 16

-- An entry keeps a 32-bit base whole, and the low 20 bits of the limit.
pub gdt_entry_of_lem :
    (base limit access flags : ℕ)
    → base < 2 ^ 32
    → let e = gdt_entry_of base limit access flags in
      (base_of e ≡ base) × (limit_of e ≡ limit % 2 ^ 20)
unfolding gdt_entry_of
gdt_entry_of_lem base limit access flags fits =
    rw
      (
        bit_and_low 16 base,
        bit_and_low 8 (base / 2 ^ 16),
        bit_and_low 8 (base / 2 ^ 24),
        bit_and_low 16 limit,
        bit_and_low 4 (limit / 2 ^ 16),
      )
      (omega arith, omega arith)

-- `gdt_init` stays in its table and leaves the null descriptor and four flat segments of 4 GiB, code
-- and data for the kernel and for ring 3.
pub gdt_init_lem :
    (address : ℕ) (trace : Trace)
    → (gdt : Gdt) × (gdt_init address trace ≡ ok gdt)
      × (map descriptor gdt.entries
          ≡ 0 ∷ 0x00CF9A000000FFFF ∷ 0x00CF92000000FFFF ∷ 0x00CFFA000000FFFF ∷ 0x00CFF2000000FFFF
            ∷ [])
unfolding gdt_init gdt_set_gate gdt_entry_of
gdt_init_lem address trace = (_, refl, refl)
