-- ===== src/Memory/Allocator/Init.antt =====
-- `mem_get_bytes` and `mem_initialize` of memory.c.
use aeon_486_os.Base.{ℕ, ◌+◌, ◌-◌, ◌*◌, ◌/◌, ◌%◌, ◌≤◌, ◌<◌, List}
use aeon_486_os.Base.{ok, panic, ◌≡◌, ◌⊎◌, inl, inr, refl, arith, ◌∙◌, subst}
use aeon_486_os.Base.{length, replicate, length-replicate}
use aeon_486_os.Base.{get_or-replicate, out_of_page_space}
use aeon_486_os.Base.Word.{u32, sub32}
use aeon_486_os.Base.Word.Masks.{bit_or_fields_low, bit-zero}
use aeon_486_os.Memory.Paging.{
  page, page_size, compute_highest_free_address, kernel_page_tables_len,
}
use aeon_486_os.Memory.Paging.{ptf_read_write, kernel_first_page_address}
use aeon_486_os.Memory.Paging.Mapping.{IsMapped, page_lem, PageResult}
use aeon_486_os.Memory.Allocator.{Kernel, mem_get_bytes, mem_initialize, mem_map_len}
use aeon_486_os.Memory.Allocator.{mem_block_size}
use aeon_486_os.Memory.Allocator.Bitmap.{used}

-- The two CMOS bytes are a number of KiB, low byte first.
pub mem_get_bytes_lem :
    (cmos : ℕ → ℕ)
    → cmos 0x30 < 256
    → cmos 0x31 < 256
    → mem_get_bytes cmos ≡ (cmos 0x31 * 256 + cmos 0x30) * 1024
unfolding mem_get_bytes
mem_get_bytes_lem cmos low high = omega (arith, bit_or_fields_low 8 (cmos 0x31) (cmos 0x30) low)

init_panic :
    (cmos : ℕ → ℕ) (table : List ℕ) (first : ℕ)
    → compute_highest_free_address table ≡ ok first
    → page table first 4096 ptf_read_write ≡ panic out_of_page_space
    → mem_initialize cmos table ≡ panic out_of_page_space
unfolding mem_initialize
init_panic cmos table first top stopped = rw (top, stopped)

-- A fresh allocator: all blocks free, the search inside the map, and the bounds of its memory.
pub record IsFresh (cmos : ℕ → ℕ) (first : ℕ) (k : Kernel) : Type 0 where
  pub tables : length k.table ≡ kernel_page_tables_len
  pub min_lem : k.allocator.min_address ≡ first + mem_block_size
  pub max_lem : k.allocator.max_address ≡ mem_get_bytes cmos
  pub count_lem : k.allocator.block_count ≡ (mem_get_bytes cmos - first) / mem_block_size
  pub map_len : length k.allocator.mem_map ≡ mem_map_len
  pub in_map : k.allocator.block_count / 32 ≤ length k.allocator.mem_map
  pub all_free : (b : ℕ) → used k.allocator.mem_map b ≡ 0

pub mem_initialize-IsFresh :
    (cmos : ℕ → ℕ) (table : List ℕ) (first : ℕ) (paged : ℕ × List ℕ)
    → cmos 0x30 < 256
    → cmos 0x31 < 256
    → compute_highest_free_address table ≡ ok first
    → first ≤ mem_get_bytes cmos
    → page table first 4096 ptf_read_write ≡ ok paged
    → length (paged.1) ≡ kernel_page_tables_len
    → (k : Kernel) × (mem_initialize cmos table ≡ ok k) × IsFresh cmos first k × (k.table ≡ paged.1)
unfolding mem_initialize
mem_initialize-IsFresh cmos table first paged low high top below mapped len =
    let bytes = mem_get_bytes_lem cmos low high in
    let wrap : sub32 (mem_get_bytes cmos) first ≡ mem_get_bytes cmos - first =
      omega (arith, bytes) in
    let past : u32 (first + mem_block_size) ≡ first + mem_block_size = omega (arith, bytes) in
    rw (top, mapped, wrap, past)
      (
        record {
          table = paged.1;
          allocator = record {
            min_address = first + mem_block_size;
            max_address = mem_get_bytes cmos;
            block_count = (mem_get_bytes cmos - first) / mem_block_size;
            mem_map = replicate mem_map_len 0;
          };
        },
        refl,
        record {
          tables = len;
          min_lem = refl;
          max_lem = refl;
          count_lem = refl;
          map_len = length-replicate {A = ℕ} mem_map_len 0;
          in_map = rw (length-replicate {A = ℕ} mem_map_len 0) (omega (arith, bytes));
          all_free = λ b. rw (get_or-replicate {A = ℕ} mem_map_len (b / 32) 0) (bit-zero (b % 32));
        },
        refl,
      )

-- With the kernel's tables, and the first free address not past the memory that the CMOS reports,
-- `mem_initialize` either finds no room to map its bookkeeping and stops, or leaves a fresh
-- allocator, whose search stays inside the map, and the bookkeeping mapped in two pages.
pub mem_initialize_lem :
    (cmos : ℕ → ℕ) (table : List ℕ) (first : ℕ)
    → length table ≡ kernel_page_tables_len
    → cmos 0x30 < 256
    → cmos 0x31 < 256
    → compute_highest_free_address table ≡ ok first
    → first ≤ mem_get_bytes cmos
    → (mem_initialize cmos table ≡ panic out_of_page_space)
      ⊎ ((k : Kernel) × (i : ℕ) × (mem_initialize cmos table ≡ ok k)
          × IsFresh cmos first k
          × IsMapped table k.table ptf_read_write first 2 i)
mem_initialize_lem cmos table first len low high top below = by_result (
    page_lem table first 4096 ptf_read_write len (omega (arith, mem_get_bytes_lem cmos low high))
      (omega arith) refl)
  where
    by_result :
        PageResult table first 4096 ptf_read_write
        → (mem_initialize cmos table ≡ panic out_of_page_space)
          ⊎ ((k : Kernel) × (i : ℕ) × (mem_initialize cmos table ≡ ok k)
              × IsFresh cmos first k
              × IsMapped table k.table ptf_read_write first 2 i)
    by_result (inl stopped) = inl (init_panic cmos table first top (stopped.0))
    by_result (inr (i, after, returns, run, m)) =
        let va = kernel_first_page_address + i * page_size in
        let (k, runs, fresh, same) =
          mem_initialize-IsFresh cmos table first (va, after) low high top below returns
            (m.same_length ∙ len) in
        inr (k, i, runs, fresh, rw same m)

last_block_past :
    {cmos : ℕ → ℕ} {first : ℕ} {k : Kernel}
    → IsFresh cmos first k
    → first ≤ mem_get_bytes cmos
    → k.allocator.max_address < k.allocator.min_address + k.allocator.block_count * mem_block_size
last_block_past {cmos} {first} {k} fresh below =
    omega (arith, fresh.min_lem, fresh.max_lem, fresh.count_lem)

-- `block_count` is one too high for `min_address`: after `mem_initialize` the last block always ends
-- past the memory that the CMOS reports.
pub mem_initialize_overcounts :
    (cmos : ℕ → ℕ) (table : List ℕ) (first : ℕ) (k : Kernel)
    → length table ≡ kernel_page_tables_len
    → cmos 0x30 < 256
    → cmos 0x31 < 256
    → compute_highest_free_address table ≡ ok first
    → first ≤ mem_get_bytes cmos
    → mem_initialize cmos table ≡ ok k
    → k.allocator.max_address < k.allocator.min_address + k.allocator.block_count * mem_block_size
mem_initialize_overcounts cmos table first k len low high top below returned =
    by_result (mem_initialize_lem cmos table first len low high top below)
  where
    by_result :
        (mem_initialize cmos table ≡ panic out_of_page_space)
          ⊎ ((k : Kernel) × (i : ℕ) × (mem_initialize cmos table ≡ ok k)
              × IsFresh cmos first k
              × IsMapped table k.table ptf_read_write first 2 i)
        → k.allocator.max_address
          < k.allocator.min_address + k.allocator.block_count * mem_block_size
    by_result (inl stopped) = cc
    by_result (inr (k', i, returns, fresh, m)) =
        let same : k' ≡ k = cc in
        subst
          (λ x.
            x.allocator.max_address
            < x.allocator.min_address + x.allocator.block_count * mem_block_size)
          same (last_block_past fresh below)
