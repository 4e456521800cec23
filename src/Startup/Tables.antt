-- ===== src/Startup/Tables.antt =====
-- The tables that kernel/boot.s leaves, for any value of the counter.
use aeon_486_os.Base.{ℕ, ◌+◌, ◌*◌, ◌/◌, ◌%◌, ◌^◌, ◌≤◌, ◌<◌}
use aeon_486_os.Base.{◌≡◌, ◌≢◌, ◌⊎◌, refl, arith, ◌∙◌, ok}
use aeon_486_os.Base.Word.{sub32}
use aeon_486_os.Startup.{
  Words, store_word, Image, page_table_00000000, page_table_C0000000, page_table_C0400000,
  page_table_C0800000, point_to, set_up_tables, identity_from, kernel_from, kernel_start,
}
use aeon_486_os.Startup.Filled.{IsFilled, store_other}
use aeon_486_os.Startup.IdentityLoop.{identity_from_lem}
use aeon_486_os.Startup.KernelLoop.{kernel_from_lem}
use aeon_486_os.Startup.Counter.{
  rounds, pages_of, identity_pages, kernel_pages, count, count_word, count-pos, count-le, rounds-le,
  rounds-count, rounds_stop, count_left,
}

-- The tables stand in the kernel's image, on a page of their own each, and the image ends below the page
-- that shows the screen.
pub record IsPlaced (image : Image) : Type 0 where
  pub aligned : image.page_directory % 4096 ≡ 0
  pub behind : kernel_start ≤ image.page_directory
  pub ahead : image.page_directory + 20 * 1024 ≤ image.kernel_end
  pub below : image.kernel_end ≤ 0x3FF000

-- The entries of the tables, with `low` as the table of the lowest addresses, and the words left alone.
pub record HasTables (image : Image) (before after : Words) (low identity kernel : ℕ) : Type 0 where
  pub lowest : (k : ℕ) → k < identity → after (page_table_00000000 image + k * 4) ≡ k * 4096 + 3
  pub upper :
      (k : ℕ) → 256 ≤ k → k < kernel → after (page_table_C0000000 image + k * 4) ≡ k * 4096 + 0x803
  pub screen : after (page_table_C0000000 image + 1023 * 4) ≡ 0xB8003
  pub directory_0 : after (image.page_directory + 0 * 4) ≡ low + 3
  pub directory_768 : after (image.page_directory + 768 * 4) ≡ page_table_C0000000 image + 3
  pub directory_769 : after (image.page_directory + 769 * 4) ≡ page_table_C0400000 image + 3
  pub directory_770 : after (image.page_directory + 770 * 4) ≡ page_table_C0800000 image + 3
  pub others :
      (x : ℕ)
      → (x < page_table_00000000 image) ⊎ (page_table_00000000 image + identity * 4 ≤ x)
      → (x < page_table_C0000000 image + 1024) ⊎ (page_table_C0000000 image + kernel * 4 ≤ x)
      → x ≢ page_table_C0000000 image + 1023 * 4
      → x ≢ image.page_directory + 0 * 4
      → x ≢ image.page_directory + 768 * 4
      → x ≢ image.page_directory + 769 * 4
      → x ≢ image.page_directory + 770 * 4
      → after x ≡ before x

-- The stores behind the loops.
module _ (image : Image) (kernel : Words) where
  abbrev all_stored : Words
  all_stored = point_to image 770 (page_table_C0800000 image) (
      point_to image 769 (page_table_C0400000 image) (
        point_to image 768 (page_table_C0000000 image) (
          point_to image 0 (page_table_C0000000 image)
            (store_word kernel (page_table_C0000000 image + 1023 * 4) 0xB8003))))

  behind_stores :
      (x : ℕ)
      → x ≢ page_table_C0000000 image + 1023 * 4
      → x ≢ image.page_directory + 0 * 4
      → x ≢ image.page_directory + 768 * 4
      → x ≢ image.page_directory + 769 * 4
      → x ≢ image.page_directory + 770 * 4
      → all_stored x ≡ kernel x
  unfolding store_word
  behind_stores x s d0 d1 d2 d3 = ground arith

  stored_screen : all_stored (page_table_C0000000 image + 1023 * 4) ≡ 0xB8003
  unfolding store_word
  stored_screen = ground arith

  stored_0 : all_stored (image.page_directory + 0 * 4) ≡ page_table_C0000000 image + 3
  unfolding store_word
  stored_0 = ground arith

  stored_768 : all_stored (image.page_directory + 768 * 4) ≡ page_table_C0000000 image + 3
  unfolding store_word
  stored_768 = ground arith

  stored_769 : all_stored (image.page_directory + 769 * 4) ≡ page_table_C0400000 image + 3
  unfolding store_word
  stored_769 = ground arith

  stored_770 : all_stored (image.page_directory + 770 * 4) ≡ page_table_C0800000 image + 3
  unfolding store_word
  stored_770 = ground arith

-- From what the loops fill.
HasTables-stored :
    (image : Image) (before identity kernel : Words) (first r q : ℕ)
    → 1 ≤ r
    → r ≤ 1024
    → q ≤ 1023
    → IsFilled
        (store_word before (page_table_00000000 image) first)
        identity
        (page_table_00000000 image)
        3
        0
        0
        r
    → IsFilled identity kernel (page_table_C0000000 image) 0x803 256 0 q
    → HasTables image before (all_stored image kernel) (page_table_C0000000 image) r q
HasTables-stored image before identity kernel first r q some_rounds few few' low high = record {
  lowest = λ k h.
      behind_stores image kernel (page_table_00000000 image + k * 4) (omega arith) (omega arith)
        (omega arith) (omega arith) (omega arith)
      ∙ high.others (page_table_00000000 image + k * 4) (λ j a b c e. absurd (omega (arith, e)))
      ∙ low.entries k (omega arith) (omega arith) (omega arith);
  upper = λ k h h'.
      behind_stores image kernel (page_table_C0000000 image + k * 4) (omega arith) (omega arith)
        (omega arith) (omega arith) (omega arith)
      ∙ high.entries k (omega arith) h (omega arith);
  screen = stored_screen image kernel;
  directory_0 = stored_0 image kernel;
  directory_768 = stored_768 image kernel;
  directory_769 = stored_769 image kernel;
  directory_770 = stored_770 image kernel;
  others = λ x a b s d0 d1 d2 d3.
      behind_stores image kernel x s d0 d1 d2 d3
      ∙ high.others x (λ j i f l e. absurd (omega (arith, e)))
      ∙ low.others x (λ j i f l e. absurd (omega (arith, e)))
      ∙ store_other before (page_table_00000000 image) first x (omega arith);
}

identity_loop :
    (image : Image) (ecx : ℕ) (before : Words)
    → ecx < 2 ^ 32
    → IsPlaced image
    → (after : Words) × (identity_from 1025
          (page_table_00000000 image)
          (page_table_00000000 image)
          0
          ecx
          before
        ≡ ok (sub32 ecx (identity_pages ecx), after))
      × IsFilled before after (page_table_00000000 image) 3 0 0 (identity_pages ecx)
identity_loop image ecx before word placed =
    let table = page_table_00000000 image in
    let (after, runs, filled) =
      identity_from_lem (identity_pages ecx) 1024 1025 0 (count ecx) table before (omega arith)
        (rounds-le ecx 1024 word (omega arith)) (rounds-count ecx 1024 word (omega arith))
        (count-pos ecx 1024 word (omega arith)) (count-le ecx 1024 word (omega arith))
        (rounds_stop ecx 1024 word (omega arith)) (omega arith)
        (omega (arith, placed.ahead, placed.below)) in
    let start : table + 0 * 4 ≡ table = omega arith in
    (
      after,
      rw start at (
          rw (count_word ecx 1024 word (omega arith)) at
            (rw (count_left ecx 1024 word (omega arith)) at runs)),
      filled,
    )

kernel_loop :
    (image : Image) (ecx : ℕ) (before : Words)
    → ecx < 2 ^ 32
    → IsPlaced image
    → (after : Words) × (kernel_from
          (image.kernel_end / 4096 + 2)
          image.kernel_end
          (page_table_C0000000 image)
          0
          ecx
          before
        ≡ ok after)
      × IsFilled before after (page_table_C0000000 image) 0x803 256 0 (rounds ecx (pages_of image))
kernel_loop image ecx before word placed =
    let table = page_table_C0000000 image in
    let n = pages_of image in
    let few : n < 2 ^ 32 = omega (arith, placed.below) in
    let (after, runs, filled) =
      kernel_from_lem (rounds ecx n) n (image.kernel_end / 4096 + 2) 0 (count ecx) image.kernel_end
        table before (omega (arith, placed.behind, placed.ahead)) (omega arith) (omega arith)
        (omega (arith, placed.below)) (rounds-le ecx n word few) (rounds-count ecx n word few)
        (count-pos ecx n word few) (count-le ecx n word few) (rounds_stop ecx n word few)
        (omega arith) (omega (arith, placed.ahead, placed.below)) in
    let start : table + 0 * 4 ≡ table = omega arith in
    (after, rw start at (rw (count_word ecx n word few) at runs), filled)

-- For any value of the counter the boot code comes to the jump, with the entries in its tables that
-- the counter lets the loops come to.
pub set_up_tables_lem :
    (image : Image) (ecx : ℕ) (before : Words)
    → ecx < 2 ^ 32
    → IsPlaced image
    → (after : Words) × (set_up_tables image ecx before ≡ ok after)
      × HasTables image before after
          (page_table_C0000000 image)
          (identity_pages ecx)
          (kernel_pages image ecx)
unfolding set_up_tables
set_up_tables_lem image ecx before word placed =
    let first = store_word before (page_table_00000000 image) 0x80B in
    let (identity, runs, low) = identity_loop image ecx first word placed in
    let left = sub32 ecx (identity_pages ecx) in
    let (kernel, runs', high) = kernel_loop image left identity (omega arith) placed in
    let few : pages_of image < 2 ^ 32 = omega (arith, placed.below) in
    (
      all_stored image kernel,
      rw (runs, runs') refl,
      HasTables-stored image before identity kernel 0x80B (identity_pages ecx)
          (kernel_pages image ecx) (ground arith) (rounds-le ecx 1024 word (omega arith))
          (omega (arith, rounds-le left (pages_of image) (omega arith) few, placed.below)) low high,
    )

pub identity_pages-le : (ecx : ℕ) → ecx < 2 ^ 32 → identity_pages ecx ≤ 1024
identity_pages-le ecx word = rounds-le ecx 1024 word (omega arith)

pub kernel_pages-le : (image : Image) (ecx : ℕ) → IsPlaced image → kernel_pages image ecx ≤ 1023
kernel_pages-le image ecx placed =
    let few : pages_of image < 2 ^ 32 = omega (arith, placed.below) in
    omega (
      arith,
      rounds-le (sub32 ecx (identity_pages ecx)) (pages_of image) (omega arith) few,
      placed.below,
    )

-- A counter that stops no loop ahead of the end of the kernel.
abbrev pub IsEnough : Image → (ecx : ℕ) → Type 0
IsEnough image ecx = (ecx ≤ 1024) ⊎ (1024 + pages_of image ≤ ecx)

pub kernel_pages-IsEnough :
    (image : Image) (ecx : ℕ)
    → ecx < 2 ^ 32
    → IsPlaced image
    → IsEnough image ecx
    → kernel_pages image ecx ≡ pages_of image
kernel_pages-IsEnough image ecx word placed enough = ground (arith, placed.below)
