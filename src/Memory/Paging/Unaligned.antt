-- ===== src/Memory/Paging/Unaligned.antt =====
-- `page_unaligned` of paging.c.
use aeon_486_os.Base.{ℕ, ◌+◌, ◌-◌, ◌*◌, ◌/◌, ◌%◌, ◌^◌, ◌<◌, List}
use aeon_486_os.Base.{ok, panic, ◌≡◌, inl, inr, arith, length}
use aeon_486_os.Base.{out_of_page_space}
use aeon_486_os.Base.Word.{u32, sub32}
use aeon_486_os.Memory.Paging.{
  page_unaligned, page, page_size, page_count_of, kernel_page_tables_len,
}
use aeon_486_os.Memory.Paging.{get_physical_address, kernel_first_page_address}
use aeon_486_os.Memory.Paging.Align.{page_align_lem}
use aeon_486_os.Memory.Paging.Mapping.{PageResult, page_lem}
use aeon_486_os.Memory.Paging.Entry.{IsKernelFlags}
use aeon_486_os.Memory.Paging.RoundTrip.{get_physical_address-page, get_physical_address_lem}
use aeon_486_os.Memory.Paging.RoundTrip.{page-IsPaged}

module _ (table : List ℕ) (p size flags : ℕ) (small : p < 2 ^ 32) where
  -- The call is a call of `page` on the page of the address, with the offset added.
  unaligned-ok :
      (base : ℕ) (after : List ℕ)
      → page table (p / 4096 * 4096) size flags ≡ ok (base, after)
      → base + page_size < 2 ^ 32
      → page_unaligned table p size flags ≡ ok (base + p % 4096, after)
  unfolding page_unaligned
  unaligned-ok base after paged room =
      let offset : sub32 p (p / 4096 * 4096) ≡ p % 4096 = omega arith in
      let word : u32 (base + p % 4096) ≡ base + p % 4096 = omega arith in
      rw (page_align_lem p small, paged, offset, word)

  unaligned-panic :
      page table (p / 4096 * 4096) size flags ≡ panic out_of_page_space
      → page_unaligned table p size flags ≡ panic out_of_page_space
  unfolding page_unaligned
  unaligned-panic stopped = rw (page_align_lem p small, stopped)

-- What a call of `page_unaligned` that returned did.
record IsPagedUnaligned (table : List ℕ) (p size flags va : ℕ) (after : List ℕ) : Type 0 where
  base : ℕ
  paged : page table (p / 4096 * 4096) size flags ≡ ok (base, after)
  address : va ≡ base + p % 4096

unaligned-IsPaged :
    (table : List ℕ) (p size flags va : ℕ) (after : List ℕ)
    → length table ≡ kernel_page_tables_len
    → p < 2 ^ 32
    → size < 2 ^ 32
    → IsKernelFlags flags
    → page_unaligned table p size flags ≡ ok (va, after)
    → IsPagedUnaligned table p size flags va after
unaligned-IsPaged table p size flags va after len small fits fl returned =
    by_result (page_lem table (p / 4096 * 4096) size flags len (omega arith) fits fl.no_user)
  where
    by_result :
        PageResult table (p / 4096 * 4096) size flags → IsPagedUnaligned table p size flags va after
    by_result (inl stopped) = cc (unaligned-panic table p size flags small (stopped.0))
    by_result (inr (i, mapped, returns, first, m)) =
        let base = kernel_first_page_address + i * page_size in
        let here =
          unaligned-ok table p size flags small base mapped returns (omega (arith, first.1)) in
        record {
          base = base;
          paged = (let same : mapped ≡ after = cc here in rw (← same) returns);
          address = cc here;
        }

-- The address that `page_unaligned` returns is translated to the page of the physical address,
-- and has its offset; so are the later bytes of the block, for as many pages as `page` maps.
pub page_unaligned_lem :
    (table : List ℕ) (p size flags va k : ℕ) (after : List ℕ)
    → length table ≡ kernel_page_tables_len
    → p < 2 ^ 32
    → size < 2 ^ 32
    → IsKernelFlags flags
    → p % 4096 + k < page_count_of size * page_size
    → page_unaligned table p size flags ≡ ok (va, after)
    → (frame : ℕ) × (get_physical_address after (va + k) ≡ ok frame)
      × (u32 (frame + (va + k) % 4096) ≡ u32 (p + k))
page_unaligned_lem table p size flags va k after len small fits fl inside returned =
    let u = unaligned-IsPaged table p size flags va after len small fits fl returned in
    let page_of = p % 4096 + k in
    let d =
      page-IsPaged table (p / 4096) size flags u.base after len (omega arith) fits fl u.paged in
    let looked =
      get_physical_address-page table (p / 4096) size flags u.base (page_of / 4096) (page_of % 4096)
        after len (omega arith) fits fl (omega arith) (omega arith) u.paged in
    let place : va + k ≡ u.base + page_of / 4096 * page_size + page_of % 4096 =
      omega (arith, u.address) in
    rw place
      (u32 (p / 4096 * page_size + page_of / 4096 * page_size), looked, omega (arith, d.address))

-- The number of pages does not count the offset: where offset and size go past the pages of the
-- size, the last byte of the object is not mapped by the call, and its entry is the old one.
pub page_unaligned_short :
    (table : List ℕ) (p size flags va : ℕ) (after : List ℕ)
    → length table ≡ kernel_page_tables_len
    → p < 2 ^ 32
    → size < 2 ^ 32
    → IsKernelFlags flags
    → page_count_of size * page_size < p % 4096 + size
    → page_unaligned table p size flags ≡ ok (va, after)
    → get_physical_address after (va + size - 1) ≡ get_physical_address table (va + size - 1)
page_unaligned_short table p size flags va after len small fits fl past returned =
    let u = unaligned-IsPaged table p size flags va after len small fits fl returned in
    let n = page_count_of size in
    let d =
      page-IsPaged table (p / 4096) size flags u.base after len (omega arith) fits fl u.paged in
    let room : d.index + n < 3072 = d.run.1 in
    let o = p % 4096 + size - 1 - n * page_size in
    let place : va + size - 1 ≡ kernel_first_page_address + (d.index + n) * page_size + o =
      omega (arith, u.address, d.address) in
    rw (
      place,
      get_physical_address_lem after (d.index + n) o (omega (arith, d.mapped.same_length))
          (omega arith) (omega arith),
      get_physical_address_lem table (d.index + n) o (omega arith) (omega arith) (omega arith),
      d.mapped.outside (d.index + n) (inr (omega arith)),
    )
