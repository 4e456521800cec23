-- ===== src/Memory/Allocator/Kfree.antt =====
-- `kfree` of memory.c, after `kmalloc`.
use aeon_486_os.Base.{ℕ, zero, suc, ◌+◌, ◌-◌, ◌*◌, ◌/◌, ◌^◌, ◌≤◌, ◌<◌, List}
use aeon_486_os.Base.{ok, fault, ◌≡◌, refl, arith, ◌∙◌, sym}
use aeon_486_os.Base.{length, read-fault, dec_lt}
use aeon_486_os.Base.Word.{u32, sub32}
use aeon_486_os.Memory.Paging.{page_size, page_count_of, unpage, get_physical_address}
use aeon_486_os.Memory.Paging.{ptf_read_write, kernel_first_page_address}
use aeon_486_os.Memory.Paging.Mapping.{IsMapped}
use aeon_486_os.Memory.Paging.Entry.{IsKernelFlags, entry_of-frame}
use aeon_486_os.Memory.Paging.Unpage.{IsClean, unpage_block, mapped_cleared, IsMapped-IsBlock}
use aeon_486_os.Memory.Paging.RoundTrip.{get_physical_address_lem}
use aeon_486_os.Memory.Allocator.{Kernel, kmalloc, kfree, unset_blocks, mem_block_size}
use aeon_486_os.Memory.Allocator.{mem_memory_map_unset, mem_find_first_free_block_range}
use aeon_486_os.Memory.Allocator.Bitmap.{used, unset_blocks_lem}
use aeon_486_os.Memory.Allocator.Kmalloc.{kmalloc-IsTaken, IsValid, IsTaken, block_address}

-- PTF_READ_WRITE is a flag of the kernel.
read_write-IsKernelFlags : IsKernelFlags ptf_read_write
read_write-IsKernelFlags = record {
  small = omega arith;
  no_user = refl;
  no_end = refl;
  no_lock = refl;
}

-- A state after `kmalloc`, for memory that starts at frame `m`.
module _ (k k' : Kernel) (size b va m : ℕ) (v : IsValid k) (small : size < 2 ^ 32)
    (start : k.allocator.min_address ≡ m * page_size) (low : m + b < 2 ^ 20)
    (t : IsTaken k size b va k') where
  frame_lem : block_address k.allocator b ≡ (m + b) * page_size
  frame_lem = omega arith

  IsTaken-IsMapped :
      IsMapped k.table k'.table ptf_read_write ((m + b) * page_size) (page_count_of size) t.index
  IsTaken-IsMapped = rw frame_lem at t.mapped

  -- The physical address is that of the block.
  physical_of : get_physical_address k'.table va ≡ ok ((m + b) * page_size)
  physical_of =
      let place : va ≡ kernel_first_page_address + t.index * page_size + 0 =
        omega (arith, t.address) in
      let here : t.index + 0 ≡ t.index = omega arith in
      let whole : u32 ((m + b) * page_size + 0 * page_size) ≡ (m + b) * page_size = omega arith in
      rw (
        place,
        get_physical_address_lem k'.table t.index 0
            (omega (arith, t.run.1, t.mapped.same_length, v.tables)) (omega (arith, t.run.1))
            (omega arith),
        ← here,
        IsTaken-IsMapped.inside 0 (omega arith),
        entry_of-frame (m + b) 0 ptf_read_write read_write-IsKernelFlags (page_count_of size),
        whole,
      )

  unpaged_of : IsClean k.table → unpage k'.table va ≡ ok (page_count_of size, k.table)
  unpaged_of clean =
      let (back, runs, cleared) =
        unpage_block k'.table (page_count_of size) t.index (t.mapped.same_length ∙ v.tables)
          (omega arith) (t.run.1)
          (IsMapped-IsBlock (m + b) read_write-IsKernelFlags IsTaken-IsMapped) in
      let same : back ≡ k.table = mapped_cleared clean (t.run.2) t.mapped cleared in
      rw (t.address, runs, same)

  kfree-ok :
      (mem_map : List ℕ)
      → IsClean k.table
      → unset_blocks k'.allocator.mem_map
          (page_count_of size)
          (sub32 k'.allocator.min_address ((m + b) * page_size) / mem_block_size)
        ≡ ok mem_map
      → kfree k' va
        ≡ ok (record { table = k.table; allocator = record k'.allocator { mem_map = mem_map } })
  unfolding kfree
  kfree-ok mem_map clean unsets = rw (physical_of, unpaged_of clean, unsets)

  kfree-fault :
      IsClean k.table
      → unset_blocks k'.allocator.mem_map
          (page_count_of size)
          (sub32 k'.allocator.min_address ((m + b) * page_size) / mem_block_size)
        ≡ fault
      → kfree k' va ≡ fault
  unfolding kfree
  kfree-fault clean unsets = rw (physical_of, unpaged_of clean, unsets)

-- A block number behind the map is not freed.
unset_blocks-fault :
    (mem_map : List ℕ) (n b : ℕ)
    → 0 < n
    → b < 2 ^ 32
    → 32 * length mem_map ≤ b
    → unset_blocks mem_map n b ≡ fault
unfolding unset_blocks mem_memory_map_unset
unset_blocks-fault mem_map zero b pos small h = absurd (omega arith)
unset_blocks-fault mem_map (suc n) b pos small h =
    let word : u32 b ≡ b = omega arith in rw (word, read-fault mem_map (b / 32) (omega arith))

-- What `kmalloc` took from block 0 on is given back by `kfree`: the page tables are as before the
-- call, and so is each block, if the blocks were free and no stale entries were in the tables.
pub kfree-kmalloc_first :
    (k k' : Kernel) (size va m : ℕ)
    → IsValid k
    → IsClean k.table
    → size < 2 ^ 32
    → k.allocator.min_address ≡ m * page_size
    → m < 2 ^ 20
    → page_count_of size ≤ 32 * length k.allocator.mem_map
    → ((c : ℕ) → c < page_count_of size → used k.allocator.mem_map c ≡ 0)
    → mem_find_first_free_block_range k.allocator (page_count_of size) ≡ ok 0
    → kmalloc k size ≡ ok (va, k')
    → (k'' : Kernel) × (kfree k' va ≡ ok k'')
      × (k''.table ≡ k.table)
      × ((c : ℕ) → used k''.allocator.mem_map c ≡ used k.allocator.mem_map c)
kfree-kmalloc_first k k' size va m v clean small start low room free found returned =
    let t = kmalloc-IsTaken k k' size 0 va v small found (omega arith) returned in
    let a = k'.allocator in
    let n = page_count_of size in
    let frame : sub32 a.min_address ((m + 0) * page_size) / mem_block_size ≡ 0 =
      omega (arith, t.same_min) in
    let (mem_map, unsets, marks) =
      unset_blocks_lem n a.mem_map 0 (omega (arith, t.marked.same_length))
        (omega (arith, t.marked.same_length, v.map_small)) in
    (
      record { table = k.table; allocator = record a { mem_map = mem_map } },
      kfree-ok k k' size 0 va m v small start (omega arith) t mem_map clean (rw frame unsets),
      refl,
      λ c. elim (dec_lt c n) [
        | yes p ↦ marks.inside c (omega arith) (omega arith) ∙ sym (free c p)
        | no p ↦ marks.outside c (omega arith) ∙ t.marked.outside c (omega arith)
      ],
    )

-- The frame is computed from the difference taken the wrong way round: what `kmalloc` took from any
-- later block on cannot be given back, since `kfree` reaches behind the map for the block's bit.
pub kfree-kmalloc_later :
    (k k' : Kernel) (size b va m : ℕ)
    → IsValid k
    → IsClean k.table
    → size < 2 ^ 32
    → k.allocator.min_address ≡ m * page_size
    → m + b < 2 ^ 20
    → 0 < b
    → b + 32 * length k.allocator.mem_map ≤ 2 ^ 20
    → b + page_count_of size ≤ 32 * length k.allocator.mem_map
    → mem_find_first_free_block_range k.allocator (page_count_of size) ≡ ok b
    → kmalloc k size ≡ ok (va, k')
    → kfree k' va ≡ fault
kfree-kmalloc_later k k' size b va m v clean small start low later room inside found returned =
    let t = kmalloc-IsTaken k k' size b va v small found inside returned in
    let frame : sub32 k'.allocator.min_address ((m + b) * page_size) / mem_block_size ≡ 2 ^ 20 - b =
      omega (arith, t.same_min) in
    kfree-fault k k' size b va m v small start low t clean (
      rw frame (
        unset_blocks-fault k'.allocator.mem_map (page_count_of size) (2 ^ 20 - b) (omega arith)
          (omega arith) (omega (arith, t.marked.same_length))))
