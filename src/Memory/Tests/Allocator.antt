-- ===== src/Memory/Tests/Allocator.antt =====
-- kernel/memory/memory.c on small inputs.
use aeon_486_os.Base.{ℕ, zero, suc, ◌+◌, ◌-◌, ◌*◌, ◌/◌, ◌^◌, ◌≤◌, ◌<◌, List, [], ◌∷◌}
use aeon_486_os.Base.{ok, panic, fault, ◌≡◌, ◌⊎◌, inl, inr, refl, arith, ap, ◌∙◌, read, write}
use aeon_486_os.Base.{out_of_page_space, out_of_physical_memory}
use aeon_486_os.Base.{replicate, get_or-replicate}
use aeon_486_os.Base.Word.{bit}
use aeon_486_os.Memory.Paging.{
  page, page_size, page_count_of, kernel_page_tables_len, ptf_read_write,
}
use aeon_486_os.Memory.Paging.{find_free_blocks_offset, find_from, run_is_free, create_pages}
use aeon_486_os.Memory.Paging.{compute_highest_free_address}
use aeon_486_os.Memory.Paging.Highest.{frame_at, compute_highest_free_address_lem}
use aeon_486_os.Memory.Paging.Mapping.{IsMapped}
use aeon_486_os.Memory.Allocator.{Kernel, kmalloc, kfree, mem_initialize, mem_get_bytes}
use aeon_486_os.Memory.Allocator.{set_blocks, mem_find_first_free_block, free_block_from}
use aeon_486_os.Memory.Allocator.{clear_bit_from, mem_find_first_free_block_range, out_of_memory}
use aeon_486_os.Memory.Allocator.{mem_memory_map_set, mem_memory_map_test}
use aeon_486_os.Memory.Allocator.{range_from, range_in_word, enough_free}
use aeon_486_os.Memory.Allocator.Bitmap.{used}
use aeon_486_os.Memory.Allocator.Search.{BlockAnswer, mem_find_first_free_block_lem}
use aeon_486_os.Memory.Allocator.Init.{IsFresh, mem_initialize_lem, mem_get_bytes_lem}
use aeon_486_os.Memory.Allocator.Kmalloc.{IsValid, TakeResult, kmalloc_small, kmalloc_found}
use aeon_486_os.Base.{length, some}
use aeon_486_os.Memory.Allocator.Blocks.{
  Blocks, Allocs, Different, alloc, give, first_free, take_block,
}
use aeon_486_os.Memory.Allocator.Refinement.{
  view, Refines, kmalloc-Refines, Kmallocs, Kmallocs-Allocs,
}
use aeon_486_os.Memory.Sure.{AllWords, AllWords-zeros}
use aeon_486_os.Memory.Reached.{IsStart}
use aeon_486_os.Memory.Allocator.Range.{range_block_free}
use aeon_486_os.Memory.Allocator.Overlap.{HasGap, kmalloc_overlap}
use aeon_486_os.Memory.Allocator.Kfree.{kfree-kmalloc_first, kfree-kmalloc_later}
use aeon_486_os.Memory.Tests.{empty, empty-IsClean, one_page, length-empty, length-one_page}

-- 64 blocks from 0x200000 on, with the words given.
abbrev state_of : List ℕ → List ℕ → Kernel
state_of table mem_map = record {
  table = table;
  allocator = record {
    min_address = 0x200000;
    max_address = 0x240000;
    block_count = 64;
    mem_map = mem_map;
  };
}

abbrev fresh : Kernel
fresh = state_of empty (0 ∷ 0 ∷ [])

state-IsValid : (w w' : ℕ) → IsValid (state_of empty (w ∷ w' ∷ []))
state-IsValid w w' = record { tables = length-empty; in_map = omega arith; map_small = omega arith }

-- The first request takes block 0.
first_request : kmalloc fresh 100 ≡ ok (0xC0000000, state_of one_page (1 ∷ 0 ∷ []))
unfolding kmalloc mem_find_first_free_block_range mem_find_first_free_block free_block_from
    clear_bit_from set_blocks mem_memory_map_set page find_free_blocks_offset find_from run_is_free
    create_pages read write
first_request = refl

found_first : mem_find_first_free_block_range fresh.allocator (page_count_of 100) ≡ ok 0
unfolding mem_find_first_free_block_range mem_find_first_free_block free_block_from clear_bit_from
    read
found_first = refl

-- A request of two blocks.
found_two : mem_find_first_free_block_range fresh.allocator (page_count_of 5000) ≡ ok 0
unfolding mem_find_first_free_block_range mem_find_first_free_block free_block_from clear_bit_from
    range_from range_in_word enough_free mem_memory_map_test read
found_two = refl

kmalloc_found_example : TakeResult fresh 5000 0
kmalloc_found_example =
    kmalloc_found fresh 5000 0 (state-IsValid 0 0) (omega arith) found_two (omega arith)

kmalloc_small_example :
    ((kmalloc fresh 100 ≡ panic out_of_physical_memory)
      × ((c : ℕ) → c < 64 → used (0 ∷ 0 ∷ []) c ≡ 1))
    ⊎ ((b : ℕ) × (b < 64)
        × (used (0 ∷ 0 ∷ []) b ≡ 0)
        × ((c : ℕ) → c < b → used (0 ∷ 0 ∷ []) c ≡ 1)
        × TakeResult fresh 100 b)
kmalloc_small_example = kmalloc_small fresh 100 (state-IsValid 0 0) (omega arith)

block_zero_free : (c : ℕ) → c < page_count_of 100 → used (0 ∷ 0 ∷ []) c ≡ 0
unfolding bit
block_zero_free zero h = refl
block_zero_free (suc c) h = absurd (omega arith)

kfree-kmalloc_first_example :
    (k : Kernel) × (kfree (state_of one_page (1 ∷ 0 ∷ [])) 0xC0000000 ≡ ok k)
    × (k.table ≡ empty)
    × ((c : ℕ) → used k.allocator.mem_map c ≡ used (0 ∷ 0 ∷ []) c)
kfree-kmalloc_first_example =
    kfree-kmalloc_first fresh (state_of one_page (1 ∷ 0 ∷ [])) 100 0xC0000000 512
      (state-IsValid 0 0) empty-IsClean (omega arith) refl (omega arith) (omega arith)
      block_zero_free found_first first_request

-- With block 0 taken, a request takes block 1.
abbrev next : Kernel
next = state_of empty (1 ∷ 0 ∷ [])

abbrev next_table : List ℕ
next_table = 0x201403 ∷ replicate 3071 0

next_request : kmalloc next 100 ≡ ok (0xC0000000, state_of next_table (3 ∷ 0 ∷ []))
unfolding kmalloc mem_find_first_free_block_range mem_find_first_free_block free_block_from
    clear_bit_from set_blocks mem_memory_map_set page find_free_blocks_offset find_from run_is_free
    create_pages read write
next_request = refl

found_next : mem_find_first_free_block_range next.allocator (page_count_of 100) ≡ ok 1
unfolding mem_find_first_free_block_range mem_find_first_free_block free_block_from clear_bit_from
    read
found_next = refl

kfree-kmalloc_later_example : kfree (state_of next_table (3 ∷ 0 ∷ [])) 0xC0000000 ≡ fault
kfree-kmalloc_later_example =
    kfree-kmalloc_later next (state_of next_table (3 ∷ 0 ∷ [])) 100 1 0xC0000000 512
      (state-IsValid 1 0) empty-IsClean (omega arith) refl (omega arith) (omega arith) (omega arith)
      (omega arith) found_next next_request

gap : HasGap (2 ∷ 0 ∷ [])
unfolding bit
gap = record { word = omega arith; zeroth = refl; first = refl; second = refl; third = refl }

kmalloc_overlap_example : TakeResult (state_of empty (2 ∷ 0 ∷ [])) 4096 0
kmalloc_overlap_example =
    kmalloc_overlap (state_of empty (2 ∷ 0 ∷ [])) 4096 (state-IsValid 2 0) (omega arith) gap
      (omega arith)

found_range : mem_find_first_free_block_range (state_of empty (7 ∷ 0 ∷ [])).allocator 2 ≡ ok 3
unfolding mem_find_first_free_block_range range_from range_in_word enough_free mem_memory_map_test
    read
found_range = refl

range_block_free_example :
    (◌≡◌ {A = ℕ} 3 out_of_memory) ⊎ ((used (7 ∷ 0 ∷ []) 3 ≡ 0) × (3 < 64 / 32 * 32))
range_block_free_example =
    range_block_free (state_of empty (7 ∷ 0 ∷ [])).allocator 2 3 (omega arith) (omega arith)
      found_range

mem_find_first_free_block_lem_example :
    (b : ℕ) × (mem_find_first_free_block (state_of empty (0xffffffff ∷ 5 ∷ [])).allocator ≡ ok b)
    × BlockAnswer (0xffffffff ∷ 5 ∷ []) 0 2 b
mem_find_first_free_block_lem_example =
    mem_find_first_free_block_lem (state_of empty (0xffffffff ∷ 5 ∷ [])).allocator (omega arith)
      (omega arith)

-- 15 MiB above the first.
abbrev pub cmos : ℕ → ℕ
cmos zero = 0
cmos (suc r) = 0x3c

mem_get_bytes_lem_example : mem_get_bytes cmos ≡ (0x3c * 256 + 0x3c) * 1024
mem_get_bytes_lem_example = mem_get_bytes_lem cmos (omega arith) (omega arith)

one_page_frames : (j : ℕ) → frame_at one_page j < 2 ^ 32 - page_size
one_page_frames zero = omega arith
one_page_frames (suc j) = rw (get_or-replicate {A = ℕ} 3071 j 0) (omega arith)

pub top_of_one_page : compute_highest_free_address one_page ≡ ok 0x201000
top_of_one_page =
    let (top, runs, above, reached) =
      compute_highest_free_address_lem one_page length-one_page one_page_frames in
    let enough : 0x200000 + page_size ≤ top = above 0 (omega arith) in
    runs ∙ ap ok (by_reached top enough reached)
  where
    by_reached :
        (top : ℕ)
        → 0x200000 + page_size ≤ top
        → (top ≡ page_size)
          ⊎ ((j : ℕ) × (j < kernel_page_tables_len) × (top ≡ frame_at one_page j + page_size))
        → top ≡ 0x201000
    by_reached top enough (inl low) = absurd (omega arith)
    by_reached top enough (inr (zero, p, e)) = e
    by_reached top enough (inr (suc j, p, e)) =
        let none_there : frame_at one_page (suc j) ≡ 0 = rw (get_or-replicate {A = ℕ} 3071 j 0) in
        absurd (omega arith)

pub below_memory : 0x201000 ≤ mem_get_bytes cmos
below_memory = omega (arith, mem_get_bytes_lem_example)

mem_initialize_lem_example :
    (mem_initialize cmos one_page ≡ panic out_of_page_space)
    ⊎ ((k : Kernel) × (i : ℕ) × (mem_initialize cmos one_page ≡ ok k)
        × IsFresh cmos 0x201000 k
        × IsMapped one_page k.table ptf_read_write 0x201000 2 i)
mem_initialize_lem_example =
    mem_initialize_lem cmos one_page 0x201000 length-one_page (omega arith) (omega arith)
      top_of_one_page below_memory

abbrev booted : Kernel
booted = record {
  table = 0x200403 ∷ 0x201003 ∷ 0x202403 ∷ replicate 3069 0;
  allocator = record {
    min_address = 0x202000;
    max_address = 0xf0f000;
    block_count = 3342;
    mem_map = replicate 1021 0;
  };
}

boots : mem_initialize cmos one_page ≡ ok booted
unfolding mem_initialize mem_get_bytes page find_free_blocks_offset find_from run_is_free
    create_pages read write
boots = rw top_of_one_page

kmalloc-Refines_example : Refines fresh 100
kmalloc-Refines_example = kmalloc-Refines fresh 100 (state-IsValid 0 0) (omega arith)

abbrev fresh_used : Kernel
fresh_used = state_of one_page (1 ∷ 0 ∷ [])

one_call : Kmallocs fresh (100 ∷ []) (0xC0000000 ∷ []) fresh_used
one_call = Kmallocs.a_call (omega arith) first_request Kmallocs.no_call

Kmallocs-Allocs_example :
    (bs : List ℕ) × Allocs (view fresh) bs (view fresh_used)
    × (length bs ≡ 1)
    × Different bs
    × IsValid fresh_used
Kmallocs-Allocs_example =
    Kmallocs-Allocs fresh fresh_used (100 ∷ []) (0xC0000000 ∷ []) (state-IsValid 0 0) one_call

-- After the first request the abstract allocator gives block 1.
second_block : (b : ℕ) × (s : Blocks) × (alloc (view fresh_used) ≡ some (b, s)) × (b ≡ 1)
unfolding view alloc give first_free take_block bit
second_block = (1, take_block 1 (view fresh_used), refl, refl)

one_page-AllWords : AllWords one_page
unfolding AllWords
one_page-AllWords = (omega arith, AllWords-zeros 3071)

one_page-IsStart : IsStart cmos one_page 0x201000
one_page-IsStart = record {
  low = omega arith;
  high = omega arith;
  array = record { size = length-one_page; words = one_page-AllWords };
  top = top_of_one_page;
  below = below_memory;
}

-- The same after a request of 100 bytes.
abbrev booted_used : Kernel
booted_used = record {
  table = 0x200403 ∷ 0x201003 ∷ 0x202403 ∷ 0x202403 ∷ replicate 3068 0;
  allocator = record {
    min_address = 0x202000;
    max_address = 0xf0f000;
    block_count = 3342;
    mem_map = 1 ∷ replicate 1020 0;
  };
}

booted_request : kmalloc booted 100 ≡ ok (0xC0003000, booted_used)
unfolding kmalloc mem_find_first_free_block_range mem_find_first_free_block free_block_from
    clear_bit_from set_blocks mem_memory_map_set page find_free_blocks_offset find_from run_is_free
    create_pages read write
booted_request = refl
