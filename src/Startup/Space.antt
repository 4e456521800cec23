-- ===== src/Startup/Space.antt =====
-- The address space that kernel/boot.s sets up.
use aeon_486_os.Base.{ℕ, ◌+◌, ◌-◌, ◌*◌, ◌/◌, ◌%◌, ◌^◌, ◌≤◌, ◌<◌, ℕ_discrete, dec_lt}
use aeon_486_os.Base.{◌≡◌, ◌≢◌, ◌⊎◌, inl, inr, refl, arith, ◌∙◌, sym, ap, if◌then◌else◌}
use aeon_486_os.Base.{Option, some, none, ltb, leb, ◌&&◌}
use aeon_486_os.Startup.{
  Words, Image, page_table_00000000, page_table_C0000000, page_table_C0400000, page_table_C0800000,
  kernel_start,
}
use aeon_486_os.Startup.Tables.{IsPlaced, HasTables}
use aeon_486_os.Startup.{translate}
use aeon_486_os.Startup.Translate.{translate-some, translate-no_page, translate-no_table}

-- The address space: the lowest pages at their own addresses, the kernel from 0xC0000000 on, the
-- screen in the last page of that table, and nothing else.
unfoldable pub address_space : (identity kernel va : ℕ) → Option ℕ
address_space identity kernel va =
    if ltb va (identity * 4096)
    then some va
    else if leb (0xC0000000 + kernel_start) va && ltb va (0xC0000000 + kernel * 4096)
    then some (va - 0xC0000000)
    else if leb 0xC03FF000 va && ltb va 0xC0400000
    then some (va - 0xC03FF000 + 0xB8000)
    else none

-- The five tables are filled with zeros before.
abbrev pub IsCleared : Image → Words → Type 0
IsCleared image before =
    (x : ℕ) → image.page_directory ≤ x → x < image.page_directory + 20 * 1024 → before x ≡ 0

module _ (image : Image) (before after : Words) (low identity kernel va : ℕ)
    (placed : IsPlaced image) (cleared : IsCleared image before) (few : identity ≤ 1024)
    (few' : kernel ≤ 1023) (has : HasTables image before after low identity kernel)
    (word : va < 2 ^ 32) where
  aligned_00000000 : page_table_00000000 image % 4096 ≡ 0
  aligned_00000000 = omega (arith, placed.aligned)

  aligned_C0000000 : page_table_C0000000 image % 4096 ≡ 0
  aligned_C0000000 = omega (arith, placed.aligned)

  -- A word of the tables that is not written is 0.
  still_zero :
      (x : ℕ)
      → image.page_directory ≤ x
      → x < image.page_directory + 20 * 1024
      → (x < page_table_00000000 image) ⊎ (page_table_00000000 image + identity * 4 ≤ x)
      → (x < page_table_C0000000 image + 1024) ⊎ (page_table_C0000000 image + kernel * 4 ≤ x)
      → x ≢ page_table_C0000000 image + 1023 * 4
      → x ≢ image.page_directory + 0 * 4
      → x ≢ image.page_directory + 768 * 4
      → x ≢ image.page_directory + 769 * 4
      → x ≢ image.page_directory + 770 * 4
      → after x ≡ 0
  still_zero x from to a b s d0 d1 d2 d3 = has.others x a b s d0 d1 d2 d3 ∙ cleared x from to

  space_lowest : va < identity * 4096 → address_space identity kernel va ≡ some va
  unfolding address_space
  space_lowest h = ground arith

  space_kernel :
      va / 2 ^ 22 ≡ 768
      → 256 ≤ va / 4096 % 1024
      → va / 4096 % 1024 < kernel
      → address_space identity kernel va ≡ some (va - 0xC0000000)
  unfolding address_space
  space_kernel at from to = ground arith

  space_screen :
      va / 2 ^ 22 ≡ 768
      → va / 4096 % 1024 ≡ 1023
      → address_space identity kernel va ≡ some (va - 0xC03FF000 + 0xB8000)
  unfolding address_space
  space_screen at last = ground arith

  space_none :
      identity * 4096 ≤ va
      → (va / 2 ^ 22 ≢ 768)
        ⊎ ((va / 4096 % 1024 ≢ 1023) × ((va / 4096 % 1024 < 256) ⊎ (kernel ≤ va / 4096 % 1024)))
      → address_space identity kernel va ≡ none
  unfolding address_space
  space_none above other = ground arith

  -- The entry of the page directory that an address takes.
  at_index :
      (k : ℕ)
      → va / 2 ^ 22 ≡ k
      → after (image.page_directory + va / 2 ^ 22 * 4) ≡ after (image.page_directory + k * 4)
  at_index k at = ap (λ (n : ℕ). after (image.page_directory + n * 4)) at

  upper_found :
      va / 2 ^ 22 ≡ 768
      → after (image.page_directory + va / 2 ^ 22 * 4) ≡ page_table_C0000000 image + 3
  upper_found at = at_index 768 at ∙ has.directory_768

  -- The kernel, the screen, and the rest of the kernel's table.
  pub upper_kernel :
      va / 2 ^ 22 ≡ 768
      → 256 ≤ va / 4096 % 1024
      → va / 4096 % 1024 < kernel
      → translate after image.page_directory va ≡ some (va - 0xC0000000)
  upper_kernel at from to =
      translate-some after image.page_directory va (page_table_C0000000 image) (va / 4096 % 1024)
        0x803 aligned_C0000000 (upper_found at) (has.upper (va / 4096 % 1024) from to) (omega arith)
        refl
      ∙ ap some (omega arith)

  upper_screen :
      va / 2 ^ 22 ≡ 768
      → va / 4096 % 1024 ≡ 1023
      → translate after image.page_directory va ≡ some (va - 0xC03FF000 + 0xB8000)
  upper_screen at last =
      translate-some after image.page_directory va (page_table_C0000000 image) 0xB8 3
        aligned_C0000000 (upper_found at)
        (ap (λ (n : ℕ). after (page_table_C0000000 image + n * 4)) last ∙ has.screen) (omega arith)
        refl
      ∙ ap some (omega arith)

  pub upper_none :
      va / 2 ^ 22 ≡ 768
      → va / 4096 % 1024 ≢ 1023
      → (va / 4096 % 1024 < 256) ⊎ (kernel ≤ va / 4096 % 1024)
      → translate after image.page_directory va ≡ none
  upper_none at other outside =
      translate-no_page after image.page_directory va (page_table_C0000000 image) aligned_C0000000
        (upper_found at)
        (still_zero (page_table_C0000000 image + va / 4096 % 1024 * 4) (omega arith) (omega arith)
          (omega arith) (omega arith) (omega arith) (omega arith) (omega arith) (omega arith)
          (omega arith))

  upper :
      va / 2 ^ 22 ≡ 768 → translate after image.page_directory va ≡ address_space identity kernel va
  upper at = elim (ℕ_discrete (va / 4096 % 1024) 1023) [
    | yes last ↦ upper_screen at last ∙ sym (space_screen at last)
    | no other ↦ elim (dec_lt (va / 4096 % 1024) 256) [
      | yes below ↦
          upper_none at other (inl below) ∙ sym (space_none (omega arith) (inr (other, inl below)))
      | no from ↦ elim (dec_lt (va / 4096 % 1024) kernel) [
        | yes to ↦ upper_kernel at (omega arith) to ∙ sym (space_kernel at (omega arith) to)
        | no past ↦
            upper_none at other (inr (omega arith))
            ∙ sym (space_none (omega arith) (inr (other, inr (omega arith))))
      ]
    ]
  ]

  -- The two tables behind it, which are empty.
  empty_table :
      (k table : ℕ)
      → va / 2 ^ 22 ≡ k
      → (k ≡ 769) ⊎ (k ≡ 770)
      → table ≡ image.page_directory + (k - 766) * 4096
      → after (image.page_directory + k * 4) ≡ table + 3
      → translate after image.page_directory va ≡ address_space identity kernel va
  empty_table k table at which place found =
      translate-no_page after image.page_directory va table (omega (arith, placed.aligned))
        (at_index k at ∙ found)
        (still_zero (table + va / 4096 % 1024 * 4) (omega arith) (omega arith) (omega arith)
          (omega arith) (omega arith) (omega arith) (omega arith) (omega arith) (omega arith))
      ∙ sym (space_none (omega arith) (inl (omega arith)))

  -- No table at all.
  no_table :
      va / 2 ^ 22 ≢ 0
      → va / 2 ^ 22 ≢ 768
      → va / 2 ^ 22 ≢ 769
      → va / 2 ^ 22 ≢ 770
      → translate after image.page_directory va ≡ address_space identity kernel va
  no_table n0 n768 n769 n770 =
      translate-no_table after image.page_directory va (
        still_zero (image.page_directory + va / 2 ^ 22 * 4) (omega arith) (omega arith)
          (omega arith) (omega arith) (omega arith) (omega arith) (omega arith) (omega arith)
          (omega arith))
      ∙ sym (space_none (omega arith) (inl n768))

  -- The lowest pages, once their table is in the directory.
  lowest :
      low ≡ page_table_00000000 image
      → va / 2 ^ 22 ≡ 0
      → translate after image.page_directory va ≡ address_space identity kernel va
  lowest own at =
      let found = at_index 0 at ∙ has.directory_0 ∙ ap (λ (n : ℕ). n + 3) own in
      elim (dec_lt (va / 4096 % 1024) identity) [
        | yes inside ↦
            translate-some after image.page_directory va (page_table_00000000 image)
              (va / 4096 % 1024) 3 aligned_00000000 found (has.lowest (va / 4096 % 1024) inside)
              (omega arith) refl
            ∙ ap some (omega arith)
            ∙ sym (space_lowest (omega arith))
        | no past ↦
            translate-no_page after image.page_directory va (page_table_00000000 image)
              aligned_00000000 found
              (still_zero (page_table_00000000 image + va / 4096 % 1024 * 4) (omega arith)
                (omega arith) (omega arith) (omega arith) (omega arith) (omega arith) (omega arith)
                (omega arith) (omega arith))
            ∙ sym (space_none (omega arith) (inl (omega arith)))
      ]

  pub everywhere :
      low ≡ page_table_00000000 image
      → translate after image.page_directory va ≡ address_space identity kernel va
  everywhere own = elim (ℕ_discrete (va / 2 ^ 22) 0) [
    | yes at ↦ lowest own at
    | no n0 ↦ elim (ℕ_discrete (va / 2 ^ 22) 768) [
      | yes at ↦ upper at
      | no n768 ↦ elim (ℕ_discrete (va / 2 ^ 22) 769) [
        | yes at ↦
            empty_table 769 (page_table_C0400000 image) at (inl refl) (omega arith)
              has.directory_769
        | no n769 ↦ elim (ℕ_discrete (va / 2 ^ 22) 770) [
          | yes at ↦
              empty_table 770 (page_table_C0800000 image) at (inr refl) (omega arith)
                has.directory_770
          | no n770 ↦ no_table n0 n768 n769 n770
        ]
      ]
    ]
  ]
