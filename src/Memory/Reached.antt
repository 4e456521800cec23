-- ===== src/Memory/Reached.antt =====
-- The states of the memory that the kernel can reach.
use aeon_486_os.Base.{
  ℕ, ◌+◌, ◌*◌, ◌/◌, ◌≤◌, ◌<◌, ◌≡◌, arith, List, length-replicate, ok, panic, ◌==◌,
  out_of_physical_memory,
}
use aeon_486_os.Base.Word.{u32, sub32}
use aeon_486_os.Memory.Paging.{
  get_physical_address, compute_highest_free_address, page, unpage, ptf_read_write, page_count_of,
  kernel_page_tables_len,
}
use aeon_486_os.Memory.Allocator.{
  Kernel, kmalloc, kfree, mem_initialize, mem_get_bytes, mem_map_len, mem_block_size, out_of_memory,
  mem_find_first_free_block_range, set_blocks, unset_blocks,
}
use aeon_486_os.Memory.Allocator.Init.{mem_get_bytes_lem}
use aeon_486_os.Memory.Allocator.Kmalloc.{IsValid}
use aeon_486_os.Memory.Sure.{Sure, Sure-bind, Sure-ok, Sure-any, Sure-if, IsArray, AllWords-zeros}
use aeon_486_os.Memory.Arrays.{
  WithArray, page-IsArray, unpage-IsArray, set_blocks-IsArray, unset_blocks-IsArray,
}

-- The state of the memory: all three page tables and a page of bookkeeping, of words of 32 bits, and no
-- more blocks than the bookkeeping has bits for.
pub record IsSound (k : Kernel) : Type 0 where
  pub tables : IsArray kernel_page_tables_len k.table
  pub map : IsArray mem_map_len k.allocator.mem_map
  pub in_map : k.allocator.block_count / 32 ≤ mem_map_len

abbrev SoundAfter : ℕ × Kernel → Type 0
SoundAfter result = IsSound (result.1)

kmalloc-IsSound : (k : Kernel) (size : ℕ) → IsSound k → Sure SoundAfter (kmalloc k size)
unfolding kmalloc Sure
kmalloc-IsSound k size sound =
    let a = k.allocator in
    let count = page_count_of size in
    Sure-bind (λ b. Unit) SoundAfter (mem_find_first_free_block_range a count) _ (Sure-any _)
      (λ b h. Sure-if SoundAfter (b == out_of_memory) (panic out_of_physical_memory) _ tt (
        Sure-bind (IsArray mem_map_len) SoundAfter (set_blocks a.mem_map count b) _
          (set_blocks-IsArray mem_map_len count a.mem_map b sound.map)
          (λ mem_map marked.
            Sure-bind (WithArray kernel_page_tables_len) SoundAfter
              (page k.table (u32 (a.min_address + u32 (b * mem_block_size))) size ptf_read_write) _
              (page-IsArray kernel_page_tables_len k.table
                (u32 (a.min_address + u32 (b * mem_block_size))) size sound.tables (omega arith))
              (λ paged mapped. record { tables = mapped; map = marked; in_map = sound.in_map }))))

kfree-IsSound : (k : Kernel) (ptr : ℕ) → IsSound k → Sure IsSound (kfree k ptr)
unfolding kfree Sure
kfree-IsSound k ptr sound =
    let a = k.allocator in
    Sure-bind (λ p. Unit) IsSound (get_physical_address k.table ptr) _ (Sure-any _)
      (λ physical_address h.
        Sure-bind (WithArray kernel_page_tables_len) IsSound (unpage k.table ptr) _
          (unpage-IsArray kernel_page_tables_len k.table ptr sound.tables)
          (λ unpaged cleared.
            Sure-bind (IsArray mem_map_len) IsSound
              (unset_blocks a.mem_map (unpaged.0)
                (sub32 a.min_address physical_address / mem_block_size))
              _
              (unset_blocks-IsArray mem_map_len (unpaged.0) a.mem_map
                (sub32 a.min_address physical_address / mem_block_size) sound.map)
              (λ mem_map freed. record { tables = cleared; map = freed; in_map = sound.in_map })))

mem_initialize-IsSound :
    (cmos : ℕ → ℕ) (table : List ℕ) (first : ℕ)
    → cmos 0x30 < 256
    → cmos 0x31 < 256
    → IsArray kernel_page_tables_len table
    → compute_highest_free_address table ≡ ok first
    → first ≤ mem_get_bytes cmos
    → Sure IsSound (mem_initialize cmos table)
unfolding mem_initialize Sure
mem_initialize-IsSound cmos table first low high array top below =
    let bytes = mem_get_bytes_lem cmos low high in
    let few : sub32 (mem_get_bytes cmos) first / mem_block_size / 32 ≤ mem_map_len =
      omega (arith, bytes) in
    rw top (
      Sure-bind (WithArray kernel_page_tables_len) IsSound (page table first 4096 ptf_read_write) _
        (page-IsArray kernel_page_tables_len table first 4096 array (omega (arith, bytes)))
        (λ paged mapped. record {
          tables = mapped;
          map = record {
            size = length-replicate {A = ℕ} mem_map_len 0;
            words = AllWords-zeros mem_map_len;
          };
          in_map = few;
        }))

-- What the boot code and the CMOS give: all three page tables, and the first free address inside of the
-- memory.
pub record IsStart (cmos : ℕ → ℕ) (table : List ℕ) (first : ℕ) : Type 0 where
  pub low : cmos 0x30 < 256
  pub high : cmos 0x31 < 256
  pub array : IsArray kernel_page_tables_len table
  pub top : compute_highest_free_address table ≡ ok first
  pub below : first ≤ mem_get_bytes cmos

-- The states that `mem_initialize` and then calls of `kmalloc` and `kfree`, in any order and with any
-- arguments, lead to.
pub data Reached (cmos : ℕ → ℕ) (table : List ℕ) : Kernel → Type 0 where
  initialized : {k : Kernel} → mem_initialize cmos table ≡ ok k → Reached cmos table k
  allocated :
      {k k' : Kernel} {va : ℕ} (size : ℕ)
      → Reached cmos table k
      → kmalloc k size ≡ ok (va, k')
      → Reached cmos table k'
  freed :
      {k k' : Kernel} (ptr : ℕ) → Reached cmos table k → kfree k ptr ≡ ok k' → Reached cmos table k'

-- Each state that the kernel's memory reaches, by calls that return, has its three page tables and its
-- page of bookkeeping whole, as words of 32 bits, and a bit for each block that the searches look at.
pub Reached-IsSound :
    (cmos : ℕ → ℕ) (table : List ℕ) (first : ℕ) (k : Kernel)
    → IsStart cmos table first
    → Reached cmos table k
    → IsSound k
Reached-IsSound cmos table first k begin (initialized returns) =
    Sure-ok IsSound (mem_initialize cmos table) k
      (mem_initialize-IsSound cmos table first begin.low begin.high begin.array begin.top
        begin.below)
      returns
Reached-IsSound cmos table first k' begin (allocated {k = k} {va = va} size run returns) =
    Sure-ok SoundAfter (kmalloc k size) (va, k')
      (kmalloc-IsSound k size (Reached-IsSound cmos table first k begin run)) returns
Reached-IsSound cmos table first k' begin (freed {k = k} ptr run returns) =
    Sure-ok IsSound (kfree k ptr) k'
      (kfree-IsSound k ptr (Reached-IsSound cmos table first k begin run)) returns

-- So the theorems on valid states hold of each of them.
pub IsSound-IsValid : (k : Kernel) → IsSound k → IsValid k
IsSound-IsValid k sound = record {
  tables = sound.tables.size;
  in_map = rw (sound.map.size) sound.in_map;
  map_small = rw (sound.map.size) (omega arith);
}
