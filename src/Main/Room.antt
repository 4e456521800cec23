-- ===== src/Main/Room.antt =====
-- Room in the page tables and among the blocks for what the kernel takes when it starts.
use aeon_486_os.Base.{
  zero, suc, ◌*◌, ◌/◌, ℕ, ◌+◌, ◌≤◌, ◌<◌, ◌≡◌, refl, arith, ◌∙◌, List, length, leb, Bool-cases, inl,
  inr, ok,
}
use aeon_486_os.Memory.Paging.{compute_highest_free_address, kernel_page_tables_len, ptf_read_write}
use aeon_486_os.Memory.Paging.Find.{IsFreeRun}
use aeon_486_os.Memory.Paging.Mapping.{IsMapped, page_lem}
use aeon_486_os.Memory.Allocator.Bitmap.{used}
use aeon_486_os.Memory.Allocator.Kmalloc.{IsValid}
use aeon_486_os.Memory.Allocator.{mem_block_size, Kernel, mem_get_bytes, mem_initialize}
use aeon_486_os.Memory.Allocator.Init.{IsFresh, mem_initialize-IsFresh, mem_get_bytes_lem}

-- With two unused pages ahead of the last, `mem_initialize` does not stop.
pub mem_initialize-room :
    (cmos : ℕ → ℕ) (table : List ℕ) (first i : ℕ)
    → length table ≡ kernel_page_tables_len
    → cmos 0x30 < 256
    → cmos 0x31 < 256
    → compute_highest_free_address table ≡ ok first
    → first ≤ mem_get_bytes cmos
    → i + 2 < kernel_page_tables_len
    → IsFreeRun table 2 i
    → (k : Kernel) × (j : ℕ) × (mem_initialize cmos table ≡ ok k)
      × IsFresh cmos first k
      × IsMapped table k.table ptf_read_write first 2 j
mem_initialize-room cmos table first i len low high top below inside room =
    elim (page_lem table first 4096 ptf_read_write len
      (omega (arith, below, mem_get_bytes_lem cmos low high)) (omega arith) refl) [
        | inl (stopped, none) ↦ absurd (none i (omega arith) room)
        | inr (j, after, returns, first_run, mapped) ↦
            let (k, runs, fresh, same) =
              mem_initialize-IsFresh cmos table first (_, after) low high top below returns
                (mapped.same_length ∙ len) in
            (k, j, runs, fresh, rw same mapped)
      ]

-- Of three unused pages, two new ones leave one.
pub free_page_left :
    (table after : List ℕ) (flags address i j : ℕ)
    → IsFreeRun table 3 i
    → IsMapped table after flags address 2 j
    → (p : ℕ) × (p ≤ i + 2) × IsFreeRun after 1 p
free_page_left table after flags address i j room mapped = elim (Bool-cases (leb j i)) [
  | inl low ↦ (
    i + 2,
    omega arith,
    λ k one.
        let at : i + 2 + k ≡ i + 2 = omega arith in
        let kept = mapped.outside (i + 2) (inr (ground arith)) in
        rw (at, kept) (room 2 (omega arith)),
  )
  | inr high ↦ (
    i,
    omega arith,
    λ k one.
        let at : i + k ≡ i + 0 = omega arith in
        let kept = mapped.outside (i + 0) (inl (ground arith)) in
        rw (at, kept) (room 0 (omega arith)),
  )
]

pub fresh-IsValid : {cmos : ℕ → ℕ} {first : ℕ} {k : Kernel} → IsFresh cmos first k → IsValid k
fresh-IsValid fresh = record {
  tables = fresh.tables;
  in_map = fresh.in_map;
  map_small = omega (arith, fresh.map_len);
}

-- With 32 blocks the search looks at some, and of a fresh allocator none is taken.
pub not_all_used :
    {cmos : ℕ → ℕ} {first : ℕ} {k : Kernel}
    → IsFresh cmos first k
    → first + 32 * mem_block_size ≤ mem_get_bytes cmos
    → ((c : ℕ) → c < k.allocator.block_count / 32 * 32 → used k.allocator.mem_map c ≡ 1)
    → ⊥
not_all_used {cmos} {first} {k} fresh enough all_used =
    let some_block : 0 < k.allocator.block_count / 32 * 32 = omega (arith, fresh.count_lem) in
    omega (arith, all_used 0 some_block, fresh.all_free 0)

-- Of a fresh allocator the first free block is block 0.
pub first_block :
    {cmos : ℕ → ℕ} {first : ℕ} {k : Kernel} (b : ℕ)
    → IsFresh cmos first k
    → ((c : ℕ) → c < b → used k.allocator.mem_map c ≡ 1)
    → b ≡ 0
first_block zero fresh before = refl
first_block (suc b) fresh before = absurd (omega (arith, before 0 (omega arith), fresh.all_free 0))
