-- ===== src/Memory/Paging/RoundTrip.antt =====
-- `unpage` and `get_physical_address` of paging.c on what `page` returned.
use aeon_486_os.Base.{ℕ, ◌+◌, ◌*◌, ◌^◌, ◌<◌, List, true}
use aeon_486_os.Base.{ok, ◌≡◌, inl, inr, arith, subst}
use aeon_486_os.Base.{length, get_or, read_lem, bit_and, leb, le→leb, ◌∙◌}
use aeon_486_os.Base.Word.{u32, not32}
use aeon_486_os.Memory.Paging.{page, page_size, page_count_of, unpage, page_dir_index}
use aeon_486_os.Memory.Paging.{get_physical_address, kernel_first_page_address}
use aeon_486_os.Memory.Paging.{kernel_page_tables_len}
use aeon_486_os.Memory.Paging.Find.{IsFirst}
use aeon_486_os.Memory.Paging.Mapping.{IsMapped, PageResult, page_lem}
use aeon_486_os.Memory.Paging.Entry.{IsKernelFlags, entry_of-frame, kernel_index_lem}
use aeon_486_os.Memory.Paging.Unpage.{IsClean, unpage_block, mapped_cleared, IsMapped-IsBlock}

-- A call of `page` that returned, with what it did.
pub record IsPaged (table : List ℕ) (f size flags va : ℕ) (after : List ℕ) : Type 0 where
  pub index : ℕ
  pub address : va ≡ kernel_first_page_address + index * page_size
  pub run : IsFirst table kernel_page_tables_len (page_count_of size) 0 index
  pub mapped : IsMapped table after flags (f * page_size) (page_count_of size) index

pub page-IsPaged :
    (table : List ℕ) (f size flags va : ℕ) (after : List ℕ)
    → length table ≡ kernel_page_tables_len
    → f < 2 ^ 20
    → size < 2 ^ 32
    → IsKernelFlags flags
    → page table (f * page_size) size flags ≡ ok (va, after)
    → IsPaged table f size flags va after
page-IsPaged table f size flags va after len small fits fl returned =
    by_result (page_lem table (f * page_size) size flags len (omega arith) fits fl.no_user)
  where
    by_result : PageResult table (f * page_size) size flags → IsPaged table f size flags va after
    by_result (inl stopped) = cc (stopped.0)
    by_result (inr (i, mapped, returns, first, m)) = record {
      index = i;
      address = cc;
      run = first;
      mapped = subst (λ t. IsMapped table t flags (f * page_size) (page_count_of size) i) (cc) m;
    }

-- Unpaging what `page` returned gives back the number of pages and the table from before, for a
-- kernel table without stale entries and a page aligned address.
pub unpage-page :
    (table : List ℕ) (f size flags va : ℕ) (after : List ℕ)
    → length table ≡ kernel_page_tables_len
    → IsClean table
    → f < 2 ^ 20
    → size < 2 ^ 32
    → IsKernelFlags flags
    → page table (f * page_size) size flags ≡ ok (va, after)
    → unpage after va ≡ ok (page_count_of size, table)
unpage-page table f size flags va after len clean small fits fl returned =
    let p = page-IsPaged table f size flags va after len small fits fl returned in
    let n = page_count_of size in
    let (back, runs, cleared) =
      unpage_block after n p.index (p.mapped.same_length ∙ len) (omega arith) (p.run.1)
        (IsMapped-IsBlock f fl p.mapped) in
    let same : back ≡ table = mapped_cleared clean (p.run.2) p.mapped cleared in
    rw (p.address, runs, same)

-- Looking up a kernel address reads the entry of its page.
pub get_physical_address_lem :
    (table : List ℕ) (i o : ℕ)
    → i < length table
    → i < kernel_page_tables_len
    → o < page_size
    → get_physical_address table (kernel_first_page_address + i * page_size + o)
      ≡ ok (bit_and (get_or table i 0) (not32 0xfff))
unfolding get_physical_address
get_physical_address_lem table i o inside kernel small =
    let va = kernel_first_page_address + i * page_size + o in
    let (half, index) = kernel_index_lem i o kernel small in
    let upper : leb 768 (page_dir_index va) ≡ true = le→leb _ _ half in
    rw (upper, index, read_lem table i inside)

-- Every byte of the pages that `page` returned is translated to its frame: page `k` of the block
-- to the `k`-th frame from the physical address on.
pub get_physical_address-page :
    (table : List ℕ) (f size flags va k o : ℕ) (after : List ℕ)
    → length table ≡ kernel_page_tables_len
    → f < 2 ^ 20
    → size < 2 ^ 32
    → IsKernelFlags flags
    → k < page_count_of size
    → o < page_size
    → page table (f * page_size) size flags ≡ ok (va, after)
    → get_physical_address after (va + k * page_size + o) ≡ ok (u32 (f * page_size + k * page_size))
get_physical_address-page table f size flags va k o after len small fits fl inside low returned =
    let p = page-IsPaged table f size flags va after len small fits fl returned in
    let i = p.index in
    let place : va + k * page_size + o ≡ kernel_first_page_address + (i + k) * page_size + o =
      omega (arith, p.address) in
    let room : i + page_count_of size < 3072 = p.run.1 in
    rw (
      place,
      get_physical_address_lem after (i + k) o (omega (arith, p.mapped.same_length)) (omega arith)
          low,
      p.mapped.inside k inside,
      entry_of-frame f k flags fl (page_count_of size),
    )
