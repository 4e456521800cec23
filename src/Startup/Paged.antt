-- ===== src/Startup/Paged.antt =====
-- The address spaces of kernel/boot.s, at the jump to the upper half and behind it.
use aeon_486_os.Base.{
  ℕ, ◌+◌, ◌*◌, ◌/◌, ◌%◌, ◌^◌, ◌≤◌, ◌<◌, ◌≡◌, refl, arith, ◌∙◌, ap, ok, fault, some, inl, inr,
  Outcome, Option, ◌>>=◌, ltb, if◌then◌else◌, Bool-cases,
}
use aeon_486_os.Startup.{
  Words, Image, page_table_00000000, page_table_C0000000, set_up_tables, behind_jump, kernel_start,
  kernel_start_offset,
}
use aeon_486_os.Startup.Counter.{identity_pages, kernel_pages}
use aeon_486_os.Startup.Tables.{
  IsPlaced, HasTables, identity_pages-le, kernel_pages-le, set_up_tables_lem,
}
use aeon_486_os.Startup.{translate}
use aeon_486_os.Startup.Translate.{
  translate-some, HasTables-jump, exchanged, behind_jump-exchanged, behind_jump_fault,
}
use aeon_486_os.Startup.Space.{address_space, IsCleared, upper_kernel, upper_none, everywhere}

-- Where an address is in the memory that a step leaves.
unfoldable pub located : Image → (va : ℕ) → Outcome Words → Outcome (Option ℕ)
located image va memory = memory >>= λ words. ok (translate words image.page_directory va)

-- Where the page directory is, once paging is on: in the kernel's upper half, if the second loop has come
-- to its page.
module _ (image : Image) (ecx : ℕ) (before after : Words) (word : ecx < 2 ^ 32)
    (placed : IsPlaced image) (cleared : IsCleared image before)
    (has : HasTables image before after
      (page_table_C0000000 image)
      (identity_pages ecx)
      (kernel_pages image ecx)) where
  abbrev directory : ℕ
  directory = image.page_directory + kernel_start_offset

  few : kernel_pages image ecx ≤ 1023
  few = kernel_pages-le image ecx placed

  low_page : image.page_directory < 0x3FF000
  low_page = omega (arith, placed.ahead, placed.below)

  pub exchanges :
      image.page_directory < kernel_pages image ecx * 4096
      → behind_jump image after ≡ ok (exchanged image after)
  exchanges reached = behind_jump-exchanged image after (
      upper_kernel image before after (page_table_C0000000 image) (identity_pages ecx)
        (kernel_pages image ecx) directory placed cleared (identity_pages-le ecx word) few has
        (omega (arith, low_page)) (omega (arith, low_page)) (omega (arith, low_page, placed.behind))
        (omega (arith, low_page))
      ∙ ap some (omega arith))

  pub faults :
      kernel_pages image ecx * 4096 ≤ image.page_directory → behind_jump image after ≡ fault
  faults missed = behind_jump_fault image after (
      upper_none image before after (page_table_C0000000 image) (identity_pages ecx)
        (kernel_pages image ecx) directory placed cleared (identity_pages-le ecx word) few has
        (omega (arith, low_page)) (omega (arith, low_page)) (omega (arith, low_page))
        (inr (omega (arith, low_page, placed.aligned))))

-- With the tables in the image as the linker places them (on pages of their own, in an image that ends
-- below the page of the screen) and filled with zeros, and for any value of `%ecx` at `_start`: the
-- tables are set up. If the counter let the second loop come past the first page of the tables, the code
-- behind the jump goes on, and from there on each 32-bit address is where this says: the lowest pages,
-- as many as the counter let the first loop write, at their own addresses; the kernel from 0xC0100000
-- on, up to the page that the counter let the second loop come to; the screen at 0xC03FF000; and no
-- other address anywhere. If the counter did not, the store behind the jump is a page fault.
pub behind_jump-translate :
    (image : Image) (ecx va : ℕ) (before : Words)
    → ecx < 2 ^ 32
    → va < 2 ^ 32
    → IsPlaced image
    → IsCleared image before
    → (after : Words) × (set_up_tables image ecx before ≡ ok after)
      × (located image va (behind_jump image after) ≡ (
          if ltb image.page_directory (kernel_pages image ecx * 4096)
          then ok (address_space (identity_pages ecx) (kernel_pages image ecx) va)
          else fault))
unfolding located
behind_jump-translate image ecx va before word word' placed cleared =
    let (after, runs, has) = set_up_tables_lem image ecx before word placed in
    let few = kernel_pages-le image ecx placed in
    (
      after,
      runs,
      elim (Bool-cases (ltb image.page_directory (kernel_pages image ecx * 4096))) [
        | inl reached ↦
            let goes_on = exchanges image ecx before after word placed cleared has (ground arith) in
            let space =
              everywhere image before (exchanged image after) (page_table_00000000 image)
                (identity_pages ecx) (kernel_pages image ecx) va placed cleared
                (identity_pages-le ecx word) few
                (HasTables-jump image before after (page_table_C0000000 image) (identity_pages ecx)
                  (kernel_pages image ecx) few has)
                word' refl in
            rw reached (ap (located image va) goes_on ∙ ap ok space)
        | inr missed ↦ rw missed (
            ap (located image va)
              (faults image ecx before after word placed cleared has (ground arith)))
      ],
    )

-- With the tables placed as the linker does and filled with zeros, and for any value of `%ecx` at
-- `_start`: when paging is switched on, each address of the kernel that the second loop has come to
-- is there twice, at its own address, where the code still runs, and in the upper half, where it
-- goes on.
pub set_up_tables-translate :
    (image : Image) (ecx pa : ℕ) (before : Words)
    → ecx < 2 ^ 32
    → IsPlaced image
    → IsCleared image before
    → kernel_start ≤ pa
    → pa < kernel_pages image ecx * 4096
    → (after : Words) × (set_up_tables image ecx before ≡ ok after)
      × (translate after image.page_directory pa ≡ some pa)
      × (translate after image.page_directory (0xC0000000 + pa) ≡ some pa)
set_up_tables-translate image ecx pa before word placed cleared from to =
    let (after, runs, has) = set_up_tables_lem image ecx before word placed in
    let few = kernel_pages-le image ecx placed in
    let index : pa / 2 ^ 22 ≡ 0 = omega arith in
    let found = ap (λ (n : ℕ). after (image.page_directory + n * 4)) index ∙ has.directory_0 in
    let entry = has.upper (pa / 4096 % 1024) (omega arith) (omega arith) in
    (
      after,
      runs,
      translate-some after image.page_directory pa (page_table_C0000000 image) (pa / 4096 % 1024)
            0x803 (omega (arith, placed.aligned)) found entry (omega arith) refl
          ∙ ap some (omega arith),
      upper_kernel image before after (page_table_C0000000 image) (identity_pages ecx)
            (kernel_pages image ecx) (0xC0000000 + pa) placed cleared (identity_pages-le ecx word)
            few has (omega arith) (omega arith) (omega arith) (omega arith)
          ∙ ap some (omega arith),
    )
