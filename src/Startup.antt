-- ===== src/Startup.antt =====
-- kernel/boot.s, from `_start` to the call of `kernel_main`, with the addresses that kernel/linker.ld
-- gives. The physical memory is a function from the addresses of its 32-bit words; only aligned words
-- are written. The registers are arguments: `%edx` only holds the word that is written next. What the
-- processor does with the tables is `translate`.
pub mod Filled
pub mod IdentityLoop
pub mod KernelLoop
pub mod Counter
pub mod Tables
pub mod Translate
pub mod Space
pub mod Paged
pub mod Handover
pub mod Start
mod Tests
use aeon_486_os.Base.{ℕ, zero, suc, ◌+◌, ◌-◌, ◌*◌, ◌/◌, ◌%◌, ◌^◌, List, [], ◌∷◌, bit_or}
use aeon_486_os.Base.{
  Outcome, ok, fault, ◌>>=◌, ltb, ◌==◌, ◌||◌, Bool, if◌then◌else◌, Option, none, some,
}
use aeon_486_os.Base.Word.{u32, sub32}

abbrev pub Words : Type 0
Words = ℕ → ℕ

unfoldable pub store_word : Words → ℕ → ℕ → Words
store_word words address value = λ x. if x == address then value else words x

-- The test of `jl`, on signed words.
abbrev pub jl : ℕ → ℕ → Bool
jl a b = ltb (u32 (a + 2 ^ 31)) (u32 (b + 2 ^ 31))

abbrev pub ptf_present : ℕ
ptf_present = 2 ^ 0

abbrev pub ptf_read_write : ℕ
ptf_read_write = 2 ^ 1

abbrev pub ptf_cache_write_through : ℕ
ptf_cache_write_through = 2 ^ 3

abbrev pub ptf_aeon_locked : ℕ
ptf_aeon_locked = 2 ^ 11

abbrev pub pdf_present : ℕ
pdf_present = 2 ^ 0

abbrev pub pdf_read_write : ℕ
pdf_read_write = 2 ^ 1

abbrev pub kernel_start : ℕ
kernel_start = 0x00100000

-- What the linker decides: `g_page_directory` and `_kernel_end`, less `KERNEL_START_OFFSET`.
pub record Image : Type 0 where
  pub page_directory : ℕ
  pub kernel_end : ℕ

abbrev pub page_table_00000000 : Image → ℕ
page_table_00000000 image = image.page_directory + 4 * 1024

abbrev pub page_table_C0000000 : Image → ℕ
page_table_C0000000 image = image.page_directory + 8 * 1024

abbrev pub page_table_C0400000 : Image → ℕ
page_table_C0400000 image = image.page_directory + 12 * 1024

abbrev pub page_table_C0800000 : Image → ℕ
page_table_C0800000 image = image.page_directory + 16 * 1024

-- The loop of the identity map: `%ecx` and the memory behind it.
unfoldable pub identity_from : (fuel table edi esi ecx : ℕ) → Words → Outcome (ℕ × Words)
identity_from zero table edi esi ecx words = fault
identity_from (suc fuel) table edi esi ecx words =
    let written = store_word words edi (bit_or esi 0x003) in
    let left = sub32 ecx 1 in
    let rest = identity_from fuel table (u32 (edi + 4)) (u32 (esi + 4096)) left written in
    if jl edi (table + 4096)
    then (if left == 0 then ok (left, written) else rest)
    else ok (ecx, words)

-- The loop of the kernel map.
unfoldable pub kernel_from : (fuel kernel_end edi esi ecx : ℕ) → Words → Outcome Words
kernel_from zero kernel_end edi esi ecx words = fault
kernel_from (suc fuel) kernel_end edi esi ecx words =
    let flags = bit_or (bit_or ptf_present ptf_read_write) ptf_aeon_locked in
    let below = jl esi kernel_start in
    let words' = if below then words else store_word words edi (bit_or esi flags) in
    let left = sub32 ecx 1 in
    let rest = kernel_from fuel kernel_end (u32 (edi + 4)) (u32 (esi + 4096)) left words' in
    let next = if left == 0 then ok words' else rest in
    if below then next else if jl esi kernel_end then next else ok words

-- Entry `index` of the page directory.
abbrev pub point_to : Image → (index table : ℕ) → Words → Words
point_to image index table words =
    store_word words (image.page_directory + index * 4) (table + pdf_present + pdf_read_write)

-- From `_start` to the jump to the upper half.
unfoldable pub set_up_tables : Image → (ecx : ℕ) → Words → Outcome Words
set_up_tables image ecx words = do
  let table = page_table_00000000 image
  let first_flags =
      bit_or (bit_or (bit_or ptf_present ptf_read_write) ptf_cache_write_through) ptf_aeon_locked
  identity ← identity_from 1025 table table 0 ecx (store_word words table (bit_or 0 first_flags))
  kernel ←
      kernel_from (image.kernel_end / 4096 + 2) image.kernel_end (page_table_C0000000 image) 0
        (identity.0) (identity.1)
  let shown = store_word kernel (page_table_C0000000 image + 1023 * 4) (bit_or 0x000B8000 0x003)
  ok (
      point_to image 770 (page_table_C0800000 image) (
        point_to image 769 (page_table_C0400000 image) (
          point_to image 768 (page_table_C0000000 image)
            (point_to image 0 (page_table_C0000000 image) shown))))

-- The physical address of a virtual one, as the processor finds it by the two levels of tables from the
-- page directory at `cr3`; none where the bit 0 of an entry is clear, which is a page fault.
unfoldable pub translate : Words → (cr3 va : ℕ) → Option ℕ
translate words cr3 va =
    let table = words (cr3 + va / 2 ^ 22 * 4) in
    let entry = words (table / 4096 * 4096 + va / 4096 % 1024 * 4) in
    if table % 2 == 0 || entry % 2 == 0 then none else some (entry / 4096 * 4096 + va % 4096)

abbrev pub kernel_start_offset : ℕ
kernel_start_offset = 0xC0000000

-- A store to where an address has been found; a page fault is the end, since there is no table of
-- interrupts yet.
unfoldable pub store_found : Words → (place : Option ℕ) → (value : ℕ) → Outcome Words
store_found words none value = fault
store_found words (some place) value = ok (store_word words place value)

-- Behind the jump, where the identity map replaces the kernel's in the lower half: the store goes
-- through the virtual address of the page directory. The code stands ahead of the tables in the kernel,
-- so that it is mapped where they are.
unfoldable pub behind_jump : Image → Words → Outcome Words
behind_jump image words =
    store_found words
      (translate words image.page_directory (image.page_directory + kernel_start_offset))
      (page_table_00000000 image + pdf_present + pdf_read_write)

-- The words from an address on, as the kernel reads its three page tables.
unfoldable pub words_from : Words → (address count : ℕ) → List ℕ
words_from words address zero = []
words_from words address (suc count) = words address ∷ words_from words (address + 4) count
