-- ===== src/Memory/Paging/Mapping.antt =====
-- What `page` of paging.c leaves in the kernel's table.
use aeon_486_os.Base.{ℕ, zero, suc, ◌+◌, ◌-◌, ◌*◌, ◌^◌, ◌≤◌, ◌<◌, List, true, false}
use aeon_486_os.Base.{ok, panic, out_of_page_space, ◌≡◌, ◌⊎◌, inl, inr, refl, arith}
use aeon_486_os.Base.{length, get_or, set, length-set, get_or-set_self, get_or-set_ne, ◌∙◌}
use aeon_486_os.Base.{
  read_lem, write_lem, bit_and, bit_or, nonzero, if◌then◌else◌, ◌==◌, ap, ℕ_discrete,
}
use aeon_486_os.Base.Word.{u32}
use aeon_486_os.Memory.Paging.{page, page_entry, create_pages, page_count_of, page_size, ptf_user}
use aeon_486_os.Memory.Paging.{kernel_page_tables_len, kernel_first_page_address}
use aeon_486_os.Memory.Paging.{ptf_aeon_end_of_block, out_of_free_blocks}
use aeon_486_os.Memory.Paging.Find.{IsFirst, IsFreeRun, Answer, first, nothing}
use aeon_486_os.Memory.Paging.Find.{find_free_blocks_offset_lem}
use aeon_486_os.Memory.Paging.{find_free_blocks_offset, find_from}

-- `after` maps `n` frames from `address` on at the indices from `i` on, and is `before` elsewhere.
record Created (before after : List ℕ) (flags address n i : ℕ) : Type 0 where
  same_length : length after ≡ length before
  inside :
      (k : ℕ) → k < n → get_or after (i + k) 0 ≡ page_entry (u32 (address + k * page_size)) flags
  outside : (j : ℕ) → (j < i) ⊎ (i + n ≤ j) → get_or after j 0 ≡ get_or before j 0

-- The first page, and then the rest.
module _ (table after : List ℕ) (flags address left i : ℕ) (small : address < 2 ^ 32)
    (room : i < length table)
    (rest : Created
      (set table i (page_entry address flags))
      after
      flags
      (u32 (address + page_size))
      left
      (i + 1)) where
  created_inside :
      (k : ℕ)
      → k < suc left
      → get_or after (i + k) 0 ≡ page_entry (u32 (address + k * page_size)) flags
  created_inside zero p =
      let here : i + 0 ≡ i = omega arith in
      let same : u32 (address + 0 * page_size) ≡ address = omega arith in
      rw (here, same)
        (rest.outside i (omega arith) ∙ get_or-set_self table i (page_entry address flags) 0 room)
  created_inside (suc k) p =
      let here : i + suc k ≡ i + 1 + k = omega arith in
      let same : u32 (address + suc k * page_size)
          ≡ u32 (u32 (address + page_size) + k * page_size) =
        omega arith in
      rw (here, same) (rest.inside k (omega arith))

  Created-suc : Created table after flags address (suc left) i
  Created-suc = record {
    same_length = rest.same_length ∙ length-set table i (page_entry address flags);
    inside = created_inside;
    outside = λ j p.
        rest.outside j (omega arith)
        ∙ get_or-set_ne table i j (page_entry address flags) 0 (omega arith);
  }

create_pages_lem :
    (table : List ℕ) (flags address left i : ℕ)
    → address < 2 ^ 32
    → i + left ≤ length table
    → (after : List ℕ) × (create_pages table flags address left i ≡ ok after)
      × Created table after flags address left i
unfolding create_pages
create_pages_lem table flags address zero i small room =
    (table, refl, record { same_length = refl; inside = λ k p. elim p [ ]; outside = λ j p. refl })
create_pages_lem table flags address (suc left) i small room =
    let written = set table i (page_entry address flags) in
    let fits : i + 1 + left ≤ length written = rw length-set (omega arith) in
    let (after, runs, c) =
      create_pages_lem written flags (u32 (address + page_size)) left (i + 1) (omega arith) fits in
    rw (write_lem table i (page_entry address flags) (omega arith))
      (after, runs, Created-suc table after flags address left i small (omega arith) c)

-- The entry of the `k`-th of `n` pages: the last one is marked.
abbrev pub entry_of : ℕ → ℕ → ℕ → ℕ → ℕ
entry_of address flags n k =
    let entry = page_entry (u32 (address + k * page_size)) flags in
    if k + 1 == n then bit_or entry ptf_aeon_end_of_block else entry

-- `after` maps the `n` frames from `address` on at the indices from `i` on, marks the last of
-- them as the end of the block, and is `before` elsewhere.
pub record IsMapped (before after : List ℕ) (flags address n i : ℕ) : Type 0 where
  pub same_length : length after ≡ length before
  pub inside : (k : ℕ) → k < n → get_or after (i + k) 0 ≡ entry_of address flags n k
  pub outside : (j : ℕ) → (j < i) ⊎ (i + n ≤ j) → get_or after j 0 ≡ get_or before j 0

Created-IsMapped :
    (before after : List ℕ) (flags address n i : ℕ)
    → 0 < n
    → i + n ≤ length before
    → Created before after flags address n i
    → IsMapped before
        (set after (i + n - 1) (bit_or (get_or after (i + n - 1) 0) ptf_aeon_end_of_block))
        flags
        address
        n
        i
Created-IsMapped before after flags address n i pos room c = record {
  same_length = length-set after (i + n - 1) _ ∙ c.same_length;
  inside = λ k p. elim (ℕ_discrete (k + 1) n) [
    | yes e ↦
        let place : i + n - 1 ≡ i + k = omega arith in
        let own : (k + 1 == n) ≡ true = ground arith in
        rw (place, own, ← c.inside k p)
          (get_or-set_self after (i + k) _ 0 (omega (arith, c.same_length)))
    | no ne ↦
        get_or-set_ne after (i + n - 1) (i + k) _ 0 (omega arith)
        ∙ c.inside k p
        ∙ (let other : (k + 1 == n) ≡ false = ground arith in rw other)
  ];
  outside = λ j p. get_or-set_ne after (i + n - 1) j _ 0 (omega arith) ∙ c.outside j p;
}

-- The two ways in which `page` ends for the kernel.
abbrev pub PageResult : List ℕ → ℕ → ℕ → ℕ → Type 0
PageResult table address size flags =
    ((page table address size flags ≡ panic out_of_page_space)
      × ((k : ℕ)
          → k + page_count_of size < kernel_page_tables_len
          → ¬ IsFreeRun table (page_count_of size) k))
    ⊎ ((i : ℕ) × (after : List ℕ) × (page table address size flags
          ≡ ok (kernel_first_page_address + i * page_size, after))
        × IsFirst table kernel_page_tables_len (page_count_of size) 0 i
        × IsMapped table after flags address (page_count_of size) i)

module _ (table : List ℕ) (address size flags : ℕ)
    (kernel : nonzero (bit_and flags ptf_user) ≡ false) where
  page-panic :
      find_free_blocks_offset table kernel_page_tables_len (page_count_of size)
        ≡ ok out_of_free_blocks
      → page table address size flags ≡ panic out_of_page_space
  unfolding page
  page-panic found = rw (kernel, found)

  page-ok :
      (r : ℕ)
      → find_free_blocks_offset table kernel_page_tables_len (page_count_of size) ≡ ok r
      → length table ≡ kernel_page_tables_len
      → address < 2 ^ 32
      → r + page_count_of size < kernel_page_tables_len
      → 0 < page_count_of size
      → (after : List ℕ) × (page table address size flags
          ≡ ok (kernel_first_page_address + r * page_size, after))
        × IsMapped table after flags address (page_count_of size) r
  unfolding page
  page-ok r found len small room pos =
      let n = page_count_of size in
      let (after, runs, c) = create_pages_lem table flags address n r small (omega arith) in
      let count : u32 (r + n) - r ≡ n = omega arith in
      let last : u32 (r + n) - 1 ≡ r + n - 1 = omega arith in
      let found_one : (r == out_of_free_blocks) ≡ false = ground arith in
      let inside : r + n - 1 < length after = omega (arith, c.same_length) in
      let va : u32 (kernel_first_page_address + u32 (r * page_size))
          ≡ kernel_first_page_address + r * page_size =
        omega arith in
      rw
        (
          kernel,
          found,
          found_one,
          count,
          last,
          runs,
          read_lem after (r + n - 1) inside,
          write_lem after (r + n - 1) _ inside,
          va,
        )
        (
          set after (r + n - 1) (bit_or (get_or after (r + n - 1) 0) ptf_aeon_end_of_block),
          refl,
          Created-IsMapped table after flags address n r pos (omega arith) c,
        )

-- With the kernel's tables, a page size below 2^32 and no user flag, `page` does one of two things.
-- Where the required number of unused entries does not lie in a row ahead of the last entry, it
-- stops in "Out of page space". Otherwise it returns the address of the first such run, maps the
-- run to the frames from the physical address on, and changes no other entry.
pub page_lem :
    (table : List ℕ) (address size flags : ℕ)
    → length table ≡ kernel_page_tables_len
    → address < 2 ^ 32
    → size < 2 ^ 32
    → nonzero (bit_and flags ptf_user) ≡ false
    → PageResult table address size flags
page_lem table address size flags len small fits kernel =
    let n = page_count_of size in
    let (r, found, answer) =
      find_free_blocks_offset_lem table kernel_page_tables_len n (omega arith) (omega arith)
        (omega arith) (omega arith) in
    by_answer r found answer
  where
    by_answer :
        (r : ℕ)
        → find_free_blocks_offset table kernel_page_tables_len (page_count_of size) ≡ ok r
        → Answer table kernel_page_tables_len (page_count_of size) 0 r
        → PageResult table address size flags
    by_answer r found (first h) =
        let (after, runs, mapped) =
          page-ok table address size flags kernel r found len small h.1 (omega arith) in
        inr (r, after, runs, h, mapped)
    by_answer r found (nothing e none) = inl (
      page-panic table address size flags kernel (found ∙ ap ok e),
      λ k p. none k (omega arith) p,
    )

-- A mapping for user space always stops in "Out of page space", whatever the tables hold.
pub page_user :
    (table : List ℕ) (address size flags : ℕ)
    → nonzero (bit_and flags ptf_user) ≡ true
    → page table address size flags ≡ panic out_of_page_space
unfolding page find_free_blocks_offset find_from
page_user table address size flags user = rw user
