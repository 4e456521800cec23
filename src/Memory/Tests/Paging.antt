-- ===== src/Memory/Tests/Paging.antt =====
-- kernel/memory/paging.c on small inputs.
use aeon_486_os.Base.{ℕ, zero, suc, ◌+◌, ◌-◌, ◌*◌, ◌^◌, ◌≤◌, ◌<◌, List, [], ◌∷◌}
use aeon_486_os.Base.{ok, panic, ◌≡◌, ◌⊎◌, refl, arith, read, write}
use aeon_486_os.Base.{unpage_locked}
use aeon_486_os.Base.{get_or, get_or-replicate}
use aeon_486_os.Memory.Paging.{page, page_size, unpage, get_physical_address}
use aeon_486_os.Memory.Paging.{find_free_blocks_offset, find_from, run_is_free, create_pages}
use aeon_486_os.Memory.Paging.{kernel_page_tables_len, page_unaligned, unpage_from}
use aeon_486_os.Memory.Paging.{page_align, compute_highest_free_address}
use aeon_486_os.Memory.Paging.Find.{Answer, IsFreeRun, find_free_blocks_offset_lem}
use aeon_486_os.Memory.Paging.Mapping.{PageResult, page_lem}
use aeon_486_os.Memory.Paging.Entry.{IsKernelFlags}
use aeon_486_os.Memory.Paging.RoundTrip.{unpage-page, get_physical_address-page}
use aeon_486_os.Memory.Paging.Locked.{unpage_keeps_locked}
use aeon_486_os.Memory.Paging.Unaligned.{page_unaligned_short}
use aeon_486_os.Memory.Paging.Highest.{compute_highest_free_address_lem, frame_at}
use aeon_486_os.Memory.Tests.{empty, empty-IsClean, one_page, length-empty, length-one_page}

first_page : page empty 0x200000 100 2 ≡ ok (0xC0000000, one_page)
unfolding page find_free_blocks_offset find_from run_is_free create_pages read write
first_page = refl

unaligned_page : page_unaligned empty 0x200fff 100 2 ≡ ok (0xC0000fff, one_page)
unfolding page_unaligned page_align page find_free_blocks_offset find_from run_is_free create_pages
    read write
unaligned_page = refl

two-IsKernelFlags : IsKernelFlags 2
two-IsKernelFlags = record { small = omega arith; no_user = refl; no_end = refl; no_lock = refl }

-- A used, a free, a locked and two free entries.
abbrev five : List ℕ
five = 1 ∷ 0 ∷ 2048 ∷ 0 ∷ 0 ∷ []

find_free_blocks_offset_lem_example :
    (r : ℕ) × (find_free_blocks_offset five 5 1 ≡ ok r) × Answer five 5 1 0 r
find_free_blocks_offset_lem_example =
    find_free_blocks_offset_lem five 5 1 (omega arith) (omega arith) (omega arith) (omega arith)

no_other_run : (k : ℕ) → k + 2 < 5 → ¬ IsFreeRun five 2 k
no_other_run zero h run = cc (run 0 (omega arith))
no_other_run (suc zero) h run = cc (run 1 (omega arith))
no_other_run (suc (suc zero)) h run = cc (run 0 (omega arith))
no_other_run (suc (suc (suc k))) h run = absurd (omega arith)

last_run : IsFreeRun five 2 (5 - 2)
last_run zero h = refl
last_run (suc zero) h = refl
last_run (suc (suc k)) h = absurd (omega arith)

page_lem_example : PageResult empty 0x200000 100 2
page_lem_example = page_lem empty 0x200000 100 2 length-empty (omega arith) (omega arith) refl

unpage-page_example : unpage one_page 0xC0000000 ≡ ok (1, empty)
unpage-page_example =
    unpage-page empty 512 100 2 0xC0000000 one_page length-empty empty-IsClean (omega arith)
      (omega arith) two-IsKernelFlags first_page

get_physical_address-page_example :
    get_physical_address one_page (0xC0000000 + 0 * page_size + 99) ≡ ok 0x200000
get_physical_address-page_example =
    get_physical_address-page empty 512 100 2 0xC0000000 0 99 one_page length-empty (omega arith)
      (omega arith) two-IsKernelFlags (omega arith) (omega arith) first_page

page_unaligned_short_example :
    get_physical_address one_page (0xC0000fff + 100 - 1)
    ≡ get_physical_address empty (0xC0000fff + 100 - 1)
page_unaligned_short_example =
    page_unaligned_short empty 0x200fff 100 2 0xC0000fff one_page length-empty (omega arith)
      (omega arith) two-IsKernelFlags (omega arith) unaligned_page

-- A locked entry behind a mapped one.
abbrev guarded : List ℕ
guarded = 0x200403 ∷ 0x800 ∷ []

unpaged_guarded : unpage guarded 0xC0000000 ≡ ok (1, 0 ∷ 0x800 ∷ [])
unfolding unpage unpage_from read write
unpaged_guarded = refl

unpage_locked_stops : unpage guarded 0xC0001000 ≡ panic unpage_locked
unfolding unpage unpage_from read write
unpage_locked_stops = refl

unpage_keeps_locked_example : get_or (0 ∷ 0x800 ∷ []) 1 0 ≡ get_or guarded 1 0
unpage_keeps_locked_example = unpage_keeps_locked guarded 0xC0000000 1 refl unpaged_guarded

one_page_frames : (j : ℕ) → frame_at one_page j < 2 ^ 32 - page_size
one_page_frames zero = omega arith
one_page_frames (suc j) = rw (get_or-replicate {A = ℕ} 3071 j 0) (omega arith)

compute_highest_free_address_lem_example :
    (top : ℕ) × (compute_highest_free_address one_page ≡ ok top)
    × ((j : ℕ) → j < kernel_page_tables_len → frame_at one_page j + page_size ≤ top)
    × ((top ≡ page_size)
        ⊎ ((j : ℕ) × (j < kernel_page_tables_len) × (top ≡ frame_at one_page j + page_size)))
compute_highest_free_address_lem_example =
    compute_highest_free_address_lem one_page length-one_page one_page_frames
