-- ===== src/Memory/Allocator.antt =====
-- kernel/memory/memory.c: physical memory in blocks of 4096 bytes, one bit of `mem_map` for each.
-- The bookkeeping page is a record. Its `mem_map` has the words that `mem_initialize` clears behind
-- the three header fields, and an access outside of them is `fault`.
pub mod Bitmap
pub mod Search
pub mod Init
pub mod Range
pub mod Overlap
pub mod Kmalloc
pub mod Kfree
pub mod Blocks
pub mod Refinement
use aeon_486_os.Base.{ℕ, zero, suc, ◌+◌, ◌-◌, ◌*◌, ◌/◌, ◌%◌, ◌^◌, List, Bool, true, false, not}
use aeon_486_os.Base.{
  bit_and, bit_or, Outcome, ok, panic, fault, ◌>>=◌, read, write, Option, none, some,
}
use aeon_486_os.Base.{out_of_physical_memory, ltb, leb, ◌==◌, nonzero, if◌then◌else◌, replicate}
use aeon_486_os.Base.Word.{u32, sub32, not32}
use aeon_486_os.Memory.Paging.{page, unpage, get_physical_address, compute_highest_free_address}
use aeon_486_os.Memory.Paging.{ptf_read_write}

pub record Allocator : Type 0 where
  pub min_address : ℕ
  pub max_address : ℕ
  pub block_count : ℕ
  pub mem_map : List ℕ

-- What the memory routines share: the kernel's page tables and the allocator's bookkeeping.
pub record Kernel : Type 0 where
  pub table : List ℕ
  pub allocator : Allocator

abbrev pub mem_block_size : ℕ
mem_block_size = 4096

abbrev pub out_of_memory : ℕ
out_of_memory = 0xffffffff

unfoldable pub mem_memory_map_set : List ℕ → ℕ → Outcome (List ℕ)
mem_memory_map_set mem_map b = do
  word ← read mem_map (b / 32)
  write mem_map (b / 32) (bit_or word (2 ^ (b % 32)))

unfoldable pub mem_memory_map_unset : List ℕ → ℕ → Outcome (List ℕ)
mem_memory_map_unset mem_map b = do
  word ← read mem_map (b / 32)
  write mem_map (b / 32) (bit_and word (not32 (2 ^ (b % 32))))

unfoldable pub mem_memory_map_test : List ℕ → ℕ → Outcome Bool
mem_memory_map_test mem_map b = do
  word ← read mem_map (b / 32)
  ok (nonzero (bit_and word (2 ^ (b % 32))))

-- `cmos r` is the byte that the CMOS holds in register `r`.
unfoldable pub mem_get_bytes : (ℕ → ℕ) → ℕ
mem_get_bytes cmos =
    let lowmem = cmos 0x30 in
    let highmem = cmos 0x31 in let total = bit_or lowmem (highmem * 2 ^ 8) % 2 ^ 16 in total * 1024

-- The header takes 12 of the 4096 bytes that are cleared.
abbrev pub mem_map_len : ℕ
mem_map_len = 1021

unfoldable pub mem_initialize : (ℕ → ℕ) → List ℕ → Outcome Kernel
mem_initialize cmos table = do
  min_address ← compute_highest_free_address table
  let max_address = mem_get_bytes cmos
  paged ← page table min_address 4096 ptf_read_write
  ok (record {
    table = paged.1;
    allocator = record {
      min_address = u32 (min_address + mem_block_size);
      max_address = max_address;
      block_count = sub32 max_address min_address / mem_block_size;
      mem_map = replicate mem_map_len 0;
    };
  })

-- The loop over the bits of a word: the first clear one from `j` on, with `left` to look at.
unfoldable pub clear_bit_from : ℕ → ℕ → ℕ → Option ℕ
clear_bit_from word zero j = none
clear_bit_from word (suc left) j =
    let rest = clear_bit_from word left (j + 1) in
    if not (nonzero (bit_and word (2 ^ j))) then some j else rest

-- The loop over the words, at word `i`.
unfoldable pub free_block_from : List ℕ → ℕ → ℕ → Outcome ℕ
free_block_from mem_map zero i = ok out_of_memory
free_block_from mem_map (suc left) i = do
  let rest = free_block_from mem_map left (i + 1)
  word ← read mem_map i
  if word == 0xffffffff
      then rest
      else elim (clear_bit_from word 32 0) [ none ↦ rest | some j ↦ ok (u32 (i * 32 + j)) ]

unfoldable pub mem_find_first_free_block : Allocator → Outcome ℕ
mem_find_first_free_block a = free_block_from a.mem_map (a.block_count / 32) 0

-- The innermost loop of `mem_find_first_free_block_range`, at `count`: are `size` of the tested
-- blocks free?
unfoldable pub enough_free : List ℕ → ℕ → ℕ → ℕ → ℕ → ℕ → Outcome Bool
enough_free mem_map start_bit size zero count free = ok false
enough_free mem_map start_bit size (suc left) count free = do
  used ← mem_memory_map_test mem_map (u32 (start_bit + count))
  let free' = if used then free else free + 1
  let rest = enough_free mem_map start_bit size left (count + 1) free'
  if free' == size then ok true else rest

-- Its loop over the bits of word `i`, at bit `j`.
unfoldable pub range_in_word : List ℕ → ℕ → ℕ → ℕ → ℕ → ℕ → Outcome (Option ℕ)
range_in_word mem_map size i word zero j = ok none
range_in_word mem_map size i word (suc left) j =
    let rest = range_in_word mem_map size i word left (j + 1) in
    let bit = 2 ^ j in
    if not (nonzero (bit_and word bit))
    then (do
      found ← enough_free mem_map (u32 (i * 32 + bit)) size (suc size) 0 0
      if found then ok (some (u32 (i * 32 + j))) else rest)
    else rest

-- Its loop over the words.
unfoldable pub range_from : List ℕ → ℕ → ℕ → ℕ → Outcome ℕ
range_from mem_map size zero i = ok out_of_memory
range_from mem_map size (suc left) i = do
  let rest = range_from mem_map size left (i + 1)
  word ← read mem_map i
  if word == 0xffffffff then rest else do
    found ← range_in_word mem_map size i word 32 0
    elim found [ none ↦ rest | some b ↦ ok b ]

unfoldable pub mem_find_first_free_block_range : Allocator → ℕ → Outcome ℕ
mem_find_first_free_block_range a size =
    if size == 1
    then mem_find_first_free_block a
    else range_from a.mem_map size (a.block_count / 32) 0

-- The loop of `kmalloc` that marks blocks `b`, `b + 1`, ….
unfoldable pub set_blocks : List ℕ → ℕ → ℕ → Outcome (List ℕ)
set_blocks mem_map zero b = ok mem_map
set_blocks mem_map (suc left) b = do
  mem_map' ← mem_memory_map_set mem_map (u32 b)
  set_blocks mem_map' left (b + 1)

unfoldable pub kmalloc : Kernel → ℕ → Outcome (ℕ × Kernel)
kmalloc k size = do
  let a = k.allocator
  let required_block_count = u32 (size / mem_block_size + 1)
  free_block ← mem_find_first_free_block_range a required_block_count
  if free_block == out_of_memory then panic out_of_physical_memory else do
    mem_map ← set_blocks a.mem_map required_block_count free_block
    let physical_address = u32 (a.min_address + u32 (free_block * mem_block_size))
    paged ← page k.table physical_address size ptf_read_write
    ok (paged.0, record { table = paged.1; allocator = record a { mem_map = mem_map } })

-- The loop of `kfree` that clears blocks `b`, `b + 1`, ….
unfoldable pub unset_blocks : List ℕ → ℕ → ℕ → Outcome (List ℕ)
unset_blocks mem_map zero b = ok mem_map
unset_blocks mem_map (suc left) b = do
  mem_map' ← mem_memory_map_unset mem_map (u32 b)
  unset_blocks mem_map' left (b + 1)

-- The source declares a result and returns none.
unfoldable pub kfree : Kernel → ℕ → Outcome Kernel
kfree k ptr = do
  let a = k.allocator
  physical_address ← get_physical_address k.table ptr
  unpaged ← unpage k.table ptr
  let frame = sub32 a.min_address physical_address / mem_block_size
  mem_map ← unset_blocks a.mem_map (unpaged.0) frame
  ok (record { table = unpaged.1; allocator = record a { mem_map = mem_map } })
