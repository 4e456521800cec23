-- ===== src/Memory/Allocator/Kmalloc.antt =====
-- `kmalloc` of memory.c.
use aeon_486_os.Base.{ℕ, ◌+◌, ◌*◌, ◌/◌, ◌^◌, ◌≤◌, ◌<◌, List, false}
use aeon_486_os.Base.{ok, panic, ◌≡◌, ◌⊎◌, inl, inr, refl, arith, ap, ◌∙◌, subst}
use aeon_486_os.Base.{length, out_of_page_space, ◌==◌}
use aeon_486_os.Base.{out_of_physical_memory}
use aeon_486_os.Base.Word.{u32}
use aeon_486_os.Memory.Paging.{page, page_size, kernel_page_tables_len, ptf_read_write}
use aeon_486_os.Memory.Paging.{page_count_of, kernel_first_page_address}
use aeon_486_os.Memory.Paging.Find.{IsFirst, IsFreeRun}
use aeon_486_os.Memory.Paging.Mapping.{IsMapped, page_lem, PageResult}
use aeon_486_os.Memory.Allocator.{Kernel, Allocator, kmalloc, out_of_memory, set_blocks}
use aeon_486_os.Memory.Allocator.{mem_block_size, mem_find_first_free_block_range}
use aeon_486_os.Memory.Allocator.{mem_find_first_free_block}
use aeon_486_os.Memory.Allocator.Bitmap.{used, IsMarked, set_blocks_lem}
use aeon_486_os.Memory.Allocator.Search.{BlockAnswer, free, all_used, mem_find_first_free_block_lem}

-- The state that `mem_initialize` sets up and the routines keep: the kernel's tables, and words of
-- `mem_map` for all blocks that the search looks at.
pub record IsValid (k : Kernel) : Type 0 where
  pub tables : length k.table ≡ kernel_page_tables_len
  pub in_map : k.allocator.block_count / 32 ≤ length k.allocator.mem_map
  pub map_small : length k.allocator.mem_map ≤ 2 ^ 20

abbrev pub block_address : Allocator → ℕ → ℕ
block_address a b = u32 (a.min_address + u32 (b * mem_block_size))

-- `kmalloc` took `n` blocks from `b` on and mapped them.
pub record IsTaken (k : Kernel) (size b va : ℕ) (k' : Kernel) : Type 0 where
  pub index : ℕ
  pub address : va ≡ kernel_first_page_address + index * page_size
  pub run : IsFirst k.table kernel_page_tables_len (page_count_of size) 0 index
  pub mapped :
      IsMapped k.table k'.table ptf_read_write
        (block_address k.allocator b)
        (page_count_of size)
        index
  pub marked : IsMarked k.allocator.mem_map k'.allocator.mem_map 1 (page_count_of size) b
  pub same_min : k'.allocator.min_address ≡ k.allocator.min_address
  pub same_count : k'.allocator.block_count ≡ k.allocator.block_count

-- What `kmalloc` does with the block that the search found.
abbrev pub TakeResult : Kernel → ℕ → ℕ → Type 0
TakeResult k size b =
    ((kmalloc k size ≡ panic out_of_page_space)
      × ((i : ℕ)
          → i + page_count_of size < kernel_page_tables_len
          → ¬ IsFreeRun k.table (page_count_of size) i))
    ⊎ ((va : ℕ) × (k' : Kernel) × (kmalloc k size ≡ ok (va, k')) × IsTaken k size b va k')

-- The parts of `kmalloc`, put together.
module _ (k : Kernel) (size b : ℕ) (mem_map : List ℕ)
    (found : mem_find_first_free_block_range k.allocator (page_count_of size) ≡ ok b)
    (some_block : (b == out_of_memory) ≡ false)
    (sets : set_blocks k.allocator.mem_map (page_count_of size) b ≡ ok mem_map) where
  kmalloc-panic :
      page k.table (block_address k.allocator b) size ptf_read_write ≡ panic out_of_page_space
      → kmalloc k size ≡ panic out_of_page_space
  unfolding kmalloc
  kmalloc-panic stopped = rw (found, some_block, sets, stopped)

  kmalloc-ok :
      (va : ℕ) (table : List ℕ)
      → page k.table (block_address k.allocator b) size ptf_read_write ≡ ok (va, table)
      → kmalloc k size
        ≡ ok (va, record { table = table; allocator = record k.allocator { mem_map = mem_map } })
  unfolding kmalloc
  kmalloc-ok va table paged = rw (found, some_block, sets, paged)

  kmalloc-by_page :
      IsMarked k.allocator.mem_map mem_map 1 (page_count_of size) b
      → PageResult k.table (block_address k.allocator b) size ptf_read_write
      → TakeResult k size b
  kmalloc-by_page marks (inl (stopped, none)) = inl (kmalloc-panic stopped, none)
  kmalloc-by_page marks (inr (i, table, returns, run, m)) =
      let va = kernel_first_page_address + i * page_size in
      inr (
        va,
        record { table = table; allocator = record k.allocator { mem_map = mem_map } },
        kmalloc-ok va table returns,
        record {
          index = i;
          address = refl;
          run = run;
          mapped = m;
          marked = marks;
          same_min = refl;
          same_count = refl;
        },
      )

-- In a valid state, for a size of 32 bits, with the block that the search found, and with all blocks of
-- the request inside of the map: `kmalloc` marks exactly the blocks of the request as taken and maps
-- them in the first run of unused pages, or stops where there is no such run.
pub kmalloc_found :
    (k : Kernel) (size b : ℕ)
    → IsValid k
    → size < 2 ^ 32
    → mem_find_first_free_block_range k.allocator (page_count_of size) ≡ ok b
    → b + page_count_of size ≤ 32 * length k.allocator.mem_map
    → TakeResult k size b
kmalloc_found k size b v small found room =
    let a = k.allocator in
    let (mem_map, sets, marks) =
      set_blocks_lem (page_count_of size) a.mem_map b room (omega (arith, v.map_small)) in
    let one : (b == out_of_memory) ≡ false = ground (arith, v.map_small) in
    kmalloc-by_page k size b mem_map found one sets marks
      (page_lem k.table (block_address a b) size ptf_read_write v.tables (omega arith) small refl)

-- A request of less than a block looks for one block.
range_of_one :
    (a : Allocator) (size : ℕ)
    → size < mem_block_size
    → mem_find_first_free_block_range a (page_count_of size) ≡ mem_find_first_free_block a
unfolding mem_find_first_free_block_range
range_of_one a size small = let one : page_count_of size ≡ 1 = omega arith in rw one

kmalloc-none :
    (k : Kernel) (size : ℕ)
    → mem_find_first_free_block_range k.allocator (page_count_of size) ≡ ok out_of_memory
    → kmalloc k size ≡ panic out_of_physical_memory
unfolding kmalloc
kmalloc-none k size found = rw found

-- A request of less than a block, on a valid state, stops for want of memory exactly if each block
-- that the search looks at is taken; it stops for want of pages only if there is no unused page
-- ahead of the last; and otherwise it takes the first free block, which was free before, and no
-- other, and maps it.
pub kmalloc_small :
    (k : Kernel) (size : ℕ)
    → IsValid k
    → size < mem_block_size
    → ((kmalloc k size ≡ panic out_of_physical_memory)
        × ((c : ℕ) → c < k.allocator.block_count / 32 * 32 → used k.allocator.mem_map c ≡ 1))
      ⊎ ((b : ℕ) × (b < k.allocator.block_count / 32 * 32)
          × (used k.allocator.mem_map b ≡ 0)
          × ((c : ℕ) → c < b → used k.allocator.mem_map c ≡ 1)
          × TakeResult k size b)
kmalloc_small k size v small =
    let (b, found, answer) = mem_find_first_free_block_lem k.allocator v.in_map v.map_small in
    by_answer b (range_of_one k.allocator size small ∙ found) answer
  where
    by_answer :
        (b : ℕ)
        → mem_find_first_free_block_range k.allocator (page_count_of size) ≡ ok b
        → BlockAnswer k.allocator.mem_map 0 (k.allocator.block_count / 32) b
        → ((kmalloc k size ≡ panic out_of_physical_memory)
            × ((c : ℕ) → c < k.allocator.block_count / 32 * 32 → used k.allocator.mem_map c ≡ 1))
          ⊎ ((b : ℕ) × (b < k.allocator.block_count / 32 * 32)
              × (used k.allocator.mem_map b ≡ 0)
              × ((c : ℕ) → c < b → used k.allocator.mem_map c ≡ 1)
              × TakeResult k size b)
    by_answer b found (free inside own before) = inr (
      b,
      inside,
      own,
      (λ c p. before c (omega arith) p),
      kmalloc_found k size b v (omega arith) found (omega (arith, v.in_map)),
    )
    by_answer b found (all_used e before) =
        inl (kmalloc-none k size (found ∙ ap ok e), λ c p. before c (omega arith) p)

-- A call that returned took the block that the search found.
pub kmalloc-IsTaken :
    (k k' : Kernel) (size b va : ℕ)
    → IsValid k
    → size < 2 ^ 32
    → mem_find_first_free_block_range k.allocator (page_count_of size) ≡ ok b
    → b + page_count_of size ≤ 32 * length k.allocator.mem_map
    → kmalloc k size ≡ ok (va, k')
    → IsTaken k size b va k'
kmalloc-IsTaken k k' size b va v small found room returned =
    by_result (kmalloc_found k size b v small found room)
  where
    by_result : TakeResult k size b → IsTaken k size b va k'
    by_result (inl stopped) = cc (stopped.0)
    by_result (inr (va', k'', returns, t)) =
        let same_va : va' ≡ va = cc in
        let same_k : k'' ≡ k' = cc in
        subst (λ x. IsTaken k size b x k') same_va (subst (λ x. IsTaken k size b va' x) same_k t)

-- A call that returned, with its blocks inside the map, leaves the state valid.
pub kmalloc-IsValid :
    (k k' : Kernel) (size b va : ℕ)
    → IsValid k
    → size < 2 ^ 32
    → mem_find_first_free_block_range k.allocator (page_count_of size) ≡ ok b
    → b + page_count_of size ≤ 32 * length k.allocator.mem_map
    → kmalloc k size ≡ ok (va, k')
    → IsValid k'
kmalloc-IsValid k k' size b va v small found room returned =
    let t = kmalloc-IsTaken k k' size b va v small found room returned in
    record {
      tables = t.mapped.same_length ∙ v.tables;
      in_map = rw (t.same_count, t.marked.same_length) v.in_map;
      map_small = rw (t.marked.same_length) v.map_small;
    }
