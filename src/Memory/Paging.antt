-- ===== src/Memory/Paging.antt =====
-- kernel/memory/paging.c, with `align` and `page_align` of kernel/memory/memory.c. The kernel's
-- three page tables lie one behind the other and are one list of 3072 entries, which each routine
-- takes and returns. An access outside of it is `fault`. `pagetable_refresh` only flushes the
-- processor's cache of this list and has no counterpart here.
pub mod Find
pub mod Mapping
pub mod Entry
pub mod Unpage
pub mod RoundTrip
pub mod Unaligned
pub mod Locked
pub mod Align
pub mod Highest
use aeon_486_os.Base.{ℕ, zero, suc, ◌+◌, ◌-◌, ◌*◌, ◌/◌, ◌^◌, List, [], Bool, true, false, ◌||◌}
use aeon_486_os.Base.{
  bit_and, bit_or, Outcome, ok, panic, fault, ◌>>=◌, read, write, out_of_page_space,
}
use aeon_486_os.Base.{unpage_locked, ltb, leb, ◌==◌, nonzero, if◌then◌else◌, length}
use aeon_486_os.Base.Word.{u32, sub32, shr, not32}

abbrev pub ptf_present : ℕ
ptf_present = 2 ^ 0

abbrev pub ptf_read_write : ℕ
ptf_read_write = 2 ^ 1

abbrev pub ptf_user : ℕ
ptf_user = 2 ^ 2

abbrev pub ptf_aeon_end_of_block : ℕ
ptf_aeon_end_of_block = 2 ^ 10

abbrev pub ptf_aeon_locked : ℕ
ptf_aeon_locked = 2 ^ 11

abbrev pub page_table_len : ℕ
page_table_len = 1024

abbrev pub page_size : ℕ
page_size = 0x1000

abbrev pub kernel_page_tables_len : ℕ
kernel_page_tables_len = 3072

abbrev pub kernel_first_page_address : ℕ
kernel_first_page_address = 0xC0000000

abbrev pub kernel_first_page_table_offset : ℕ
kernel_first_page_table_offset = 768

abbrev pub out_of_free_blocks : ℕ
out_of_free_blocks = 0xffffffff

unfoldable pub align : ℕ → ℕ → ℕ
align ptr a = bit_and ptr (sub32 0 a)

unfoldable pub page_align : ℕ → ℕ
unfolding align
page_align ptr = align ptr 0x1000

abbrev pub page_dir_index : ℕ → ℕ
page_dir_index virt_address = bit_and (shr virt_address 22) 0x3ff

abbrev pub page_table_index : ℕ → ℕ
page_table_index virt_address = bit_and (shr virt_address 12) 0x3ff

-- An entry that is present or locked.
abbrev pub in_use : ℕ → Bool
in_use entry = nonzero (bit_and entry ptf_present) || nonzero (bit_and entry ptf_aeon_locked)

-- The inner loop: are the `left` entries from `i + j` on unused?
unfoldable pub run_is_free : List ℕ → ℕ → ℕ → ℕ → Outcome Bool
run_is_free page_table i zero j = ok true
run_is_free page_table i (suc left) j = do
  let rest = run_is_free page_table i left (j + 1)
  entry ← read page_table (u32 (i + j))
  if in_use entry then ok false else rest

-- The outer loop at `i`, with `left` rounds to go.
unfoldable pub find_from : List ℕ → ℕ → ℕ → ℕ → ℕ → Outcome ℕ
find_from page_table page_table_size requested_count zero i = ok out_of_free_blocks
find_from page_table page_table_size requested_count (suc left) i = do
  let rest = find_from page_table page_table_size requested_count left (i + 1)
  entry ← read page_table i
  if in_use entry
      then rest
      else if leb page_table_size (u32 (i + requested_count))
      then ok out_of_free_blocks
      else do found ← run_is_free page_table i requested_count 0; if found then ok i else rest

unfoldable pub find_free_blocks_offset : List ℕ → ℕ → ℕ → Outcome ℕ
find_free_blocks_offset page_table page_table_size requested_count =
    find_from page_table page_table_size requested_count page_table_size 0

-- The loop of `compute_highest_free_address` at `i`.
unfoldable pub highest_from : List ℕ → ℕ → ℕ → ℕ → Outcome ℕ
highest_from table zero i highest_address = ok highest_address
highest_from table (suc left) i highest_address = do
  entry ← read table i
  let address = bit_and entry (not32 0xfff)
  highest_from table left (i + 1) (if ltb address highest_address then highest_address else address)

unfoldable pub compute_highest_free_address : List ℕ → Outcome ℕ
compute_highest_free_address table = do
  highest_address ← highest_from table kernel_page_tables_len 0 0
  ok (u32 (highest_address + page_size))

abbrev pub page_entry : ℕ → ℕ → ℕ
page_entry address flags = bit_or (bit_or address flags) ptf_present

-- The loop that creates the pages, at table index `i` with `left` pages to go.
unfoldable pub create_pages : List ℕ → ℕ → ℕ → ℕ → ℕ → Outcome (List ℕ)
create_pages page_table flags address zero i = ok page_table
create_pages page_table flags address (suc left) i = do
  page_table' ← write page_table i (page_entry address flags)
  create_pages page_table' flags (u32 (address + page_size)) left (i + 1)

abbrev pub page_count_of : ℕ → ℕ
page_count_of size = u32 (size / page_size + 1)

-- `page (physical_address, size, flags)`: the virtual address and the kernel's table after the
-- call. For PTF_USER the source takes a NULL table of length 0 and returns NULL.
unfoldable pub page : List ℕ → ℕ → ℕ → ℕ → Outcome (ℕ × List ℕ)
page table physical_address size flags =
    let user = nonzero (bit_and flags ptf_user) in
    let page_table = if user then [] else table in
    let page_table_length = if user then 0 else kernel_page_tables_len in
    let required_page_count = page_count_of size in
    do
      page_offset ← find_free_blocks_offset page_table page_table_length required_page_count
      if page_offset == out_of_free_blocks then panic out_of_page_space else do
        let end = u32 (page_offset + required_page_count)
        created ← create_pages page_table flags physical_address (end - page_offset) page_offset
        last ← read created (end - 1)
        mapped ← write created (end - 1) (bit_or last ptf_aeon_end_of_block)
        ok (
            if user
            then (0, table)
            else (u32 (kernel_first_page_address + u32 (page_offset * page_size)), mapped))

unfoldable pub page_unaligned : List ℕ → ℕ → ℕ → ℕ → Outcome (ℕ × List ℕ)
page_unaligned table physical_address size flags = do
  let aligned_physical_address = page_align physical_address
  let offset = sub32 physical_address aligned_physical_address
  mapped ← page table aligned_physical_address size flags
  ok (u32 (mapped.0 + offset), mapped.1)

-- The index of a kernel address in the three tables.
abbrev pub kernel_index : ℕ → ℕ
kernel_index virt_address = u32 (
    (page_dir_index virt_address - kernel_first_page_table_offset) * page_table_len
    + page_table_index virt_address)

-- The loop of `unpage` at table index `i`. It ends at an end of block, at a locked page, or by
-- an access behind the table, so the table's length bounds its rounds.
unfoldable pub unpage_from : ℕ → List ℕ → ℕ → ℕ → Outcome (ℕ × List ℕ)
unpage_from zero table i page_count = fault
unpage_from (suc fuel) table i page_count = do
  entry ← read table i
  if nonzero (bit_and entry ptf_aeon_locked) then panic unpage_locked else do
    table' ← write table i 0
    let rest = unpage_from fuel table' (i + 1) (u32 (page_count + 1))
    if nonzero (bit_and entry ptf_aeon_end_of_block)
        then ok (u32 (page_count + 1), table')
        else rest

-- Below the kernel's half the source takes a NULL table.
unfoldable pub unpage : List ℕ → ℕ → Outcome (ℕ × List ℕ)
unpage table virt_address =
    if leb kernel_first_page_table_offset (page_dir_index virt_address)
    then unpage_from (suc (length table)) table (kernel_index virt_address) 0
    else fault

unfoldable pub get_physical_address : List ℕ → ℕ → Outcome ℕ
get_physical_address table virt_address =
    if leb kernel_first_page_table_offset (page_dir_index virt_address)
    then (do entry ← read table (kernel_index virt_address); ok (bit_and entry (not32 0xfff)))
    else ok 0
