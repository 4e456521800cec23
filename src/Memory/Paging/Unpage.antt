-- ===== src/Memory/Paging/Unpage.antt =====
-- `unpage` and `get_physical_address` of paging.c, on what `page` and `page_unaligned` returned.
use aeon_486_os.Base.{ℕ, zero, suc, ◌+◌, ◌-◌, ◌*◌, ◌^◌, ◌≤◌, ◌<◌, List, true, false}
use aeon_486_os.Base.{ok, ◌≡◌, ◌⊎◌, inl, inr, refl, arith, ap, ℕ_discrete}
use aeon_486_os.Base.{
  length, get_or, set, length-set, get_or-set_self, get_or-set_ne, get_or_ext, ◌∙◌,
}
use aeon_486_os.Base.{dec_lt, sym, le→leb, read_lem, write_lem, bit_and, nonzero, ◌==◌, leb}
use aeon_486_os.Base.Word.{u32}
use aeon_486_os.Memory.Paging.{page_size, unpage, unpage_from, in_use}
use aeon_486_os.Memory.Paging.{page_dir_index, kernel_index, kernel_first_page_address}
use aeon_486_os.Memory.Paging.{kernel_page_tables_len, ptf_aeon_locked, ptf_aeon_end_of_block}
use aeon_486_os.Memory.Paging.Find.{IsFreeRun}
use aeon_486_os.Memory.Paging.Mapping.{IsMapped}
use aeon_486_os.Memory.Paging.Entry.{IsKernelFlags, entry_of-unlocked, entry_of-end}
use aeon_486_os.Memory.Paging.Entry.{kernel_index_lem}

-- A block of `n` pages at index `i`: none is locked, and the last alone ends it.
pub record IsBlock (table : List ℕ) (n i : ℕ) : Type 0 where
  pub unlocked :
      (k : ℕ) → k < n → nonzero (bit_and (get_or table (i + k) 0) ptf_aeon_locked) ≡ false
  pub ended :
      (k : ℕ)
      → k < n
      → nonzero (bit_and (get_or table (i + k) 0) ptf_aeon_end_of_block) ≡ (k + 1 == n)

-- `after` is `before` with the entries `i`, …, `i + n - 1` set to 0.
pub record IsCleared (before after : List ℕ) (n i : ℕ) : Type 0 where
  pub same_length : length after ≡ length before
  pub inside : (j : ℕ) → i ≤ j → j < i + n → get_or after j 0 ≡ 0
  pub outside : (j : ℕ) → (j < i) ⊎ (i + n ≤ j) → get_or after j 0 ≡ get_or before j 0

IsCleared-suc :
    (before after : List ℕ) (n i : ℕ)
    → i < length before
    → IsCleared (set before i 0) after n (i + 1)
    → IsCleared before after (suc n) i
IsCleared-suc before after n i room c = record {
  same_length = c.same_length ∙ length-set before i 0;
  inside = λ j p q. elim (ℕ_discrete i j) [
    | yes e ↦ rw (← e) (c.outside i (omega arith) ∙ get_or-set_self before i 0 0 room)
    | no ne ↦ c.inside j (omega arith) (omega arith)
  ];
  outside = λ j p. c.outside j (omega arith) ∙ get_or-set_ne before i j 0 0 (omega arith);
}

IsCleared-nil : {table : List ℕ} {i : ℕ} → IsCleared table table 0 i
IsCleared-nil = record {
  same_length = refl;
  inside = λ j p q. absurd (omega arith);
  outside = λ j p. refl;
}

IsBlock-suc :
    (table : List ℕ) (n i : ℕ) → IsBlock table (suc n) i → IsBlock (set table i 0) n (i + 1)
IsBlock-suc table n i b = record {
  unlocked = λ k p.
      let place : i + 1 + k ≡ i + suc k = omega arith in
      rw (place, get_or-set_ne table i (i + suc k) 0 0 (omega arith))
        (b.unlocked (suc k) (omega arith));
  ended = λ k p.
      let place : i + 1 + k ≡ i + suc k = omega arith in
      let same : (k + 1 == n) ≡ (suc k + 1 == suc n) = ground arith in
      rw (place, get_or-set_ne table i (i + suc k) 0 0 (omega arith), same)
        (b.ended (suc k) (omega arith));
}

-- The loop of `unpage` clears a block and counts its pages, on any fuel from its length on.
unpage_from_lem :
    (n fuel : ℕ) (table : List ℕ) (i count : ℕ)
    → n < fuel
    → i + suc n ≤ length table
    → count + suc n < 2 ^ 32
    → IsBlock table (suc n) i
    → (after : List ℕ) × (unpage_from fuel table i count ≡ ok (count + suc n, after))
      × IsCleared table after (suc n) i
unfolding unpage_from
unpage_from_lem n zero table i count enough room small b = absurd (omega arith)
unpage_from_lem zero (suc fuel) table i count enough room small b =
    let place : i + 0 ≡ i = omega arith in
    let word : u32 (count + 1) ≡ count + 1 = omega arith in
    let open_door : nonzero (bit_and (get_or table i 0) ptf_aeon_locked) ≡ false =
      rw place at (b.unlocked 0 (omega arith)) in
    let last : nonzero (bit_and (get_or table i 0) ptf_aeon_end_of_block) ≡ true =
      rw place at (b.ended 0 (omega arith)) in
    rw (read_lem table i (omega arith), open_door, write_lem table i 0 (omega arith), last, word)
      (set table i 0, refl, IsCleared-suc table (set table i 0) 0 i (omega arith) IsCleared-nil)
unpage_from_lem (suc n) (suc fuel) table i count enough room small b =
    let place : i + 0 ≡ i = omega arith in
    let word : u32 (count + 1) ≡ count + 1 = omega arith in
    let open_door : nonzero (bit_and (get_or table i 0) ptf_aeon_locked) ≡ false =
      rw place at (b.unlocked 0 (omega arith)) in
    let more : nonzero (bit_and (get_or table i 0) ptf_aeon_end_of_block) ≡ false =
      (rw place at (b.ended 0 (omega arith))) ∙ ground arith in
    let fits : i + 1 + suc n ≤ length (set table i 0) = rw length-set (omega arith) in
    let (after, runs, c) =
      unpage_from_lem n fuel (set table i 0) (i + 1) (count + 1) (omega arith) fits (omega arith)
        (IsBlock-suc table (suc n) i b) in
    let total : count + 1 + suc n ≡ count + suc (suc n) = omega arith in
    rw
      (
        read_lem table i (omega arith),
        open_door,
        write_lem table i 0 (omega arith),
        more,
        word,
        runs,
        total,
      )
      (after, refl, IsCleared-suc table after (suc n) i (omega arith) c)

-- The pages of one call of `page` are a block.
pub IsMapped-IsBlock :
    {before after : List ℕ} (f : ℕ) {flags n i : ℕ}
    → IsKernelFlags flags
    → IsMapped before after flags (f * page_size) n i
    → IsBlock after n i
IsMapped-IsBlock f {flags = flags} {n = n} fl m = record {
  unlocked = λ k p. rw (m.inside k p) (entry_of-unlocked f k flags fl n);
  ended = λ k p. rw (m.inside k p) (entry_of-end f k flags fl n);
}

-- An entry that is neither present nor locked is 0, as the boot code and `unpage` leave it.
abbrev pub IsClean : List ℕ → Type 0
IsClean table = (j : ℕ) → in_use (get_or table j 0) ≡ false → get_or table j 0 ≡ 0

-- Mapping a clean run and clearing it gives the table back.
pub mapped_cleared :
    {table mapped after : List ℕ} {flags address n i : ℕ}
    → IsClean table
    → IsFreeRun table n i
    → IsMapped table mapped flags address n i
    → IsCleared mapped after n i
    → after ≡ table
mapped_cleared {table} {mapped} {after} {n = n} {i = i} clean free m c =
    get_or_ext 0 after table (c.same_length ∙ m.same_length) λ j. elim (dec_lt j i) [
      | yes p ↦ c.outside j (inl p) ∙ m.outside j (inl p)
      | no p ↦ elim (dec_lt j (i + n)) [
        | yes q ↦
            let place : i + (j - i) ≡ j = omega arith in
            let unused : in_use (get_or table j 0) ≡ false =
              rw place at (free (j - i) (omega arith)) in
            c.inside j (omega arith) q ∙ sym (clean j unused)
        | no q ↦ c.outside j (inr (omega arith)) ∙ m.outside j (inr (omega arith))
      ]
    ]

-- A block in the kernel's tables is unpaged whole.
pub unpage_block :
    (table : List ℕ) (n i : ℕ)
    → length table ≡ kernel_page_tables_len
    → 0 < n
    → i + n < kernel_page_tables_len
    → IsBlock table n i
    → (after : List ℕ) × (unpage table (kernel_first_page_address + i * page_size) ≡ ok (n, after))
      × IsCleared table after n i
unfolding unpage
unpage_block table zero i len pos room b = absurd (omega arith)
unpage_block table (suc n) i len pos room b =
    let base : kernel_first_page_address + i * page_size + 0
        ≡ kernel_first_page_address + i * page_size =
      omega arith in
    let (half, index) = kernel_index_lem i 0 (omega arith) (omega arith) in
    let kernel : leb 768 (page_dir_index (kernel_first_page_address + i * page_size)) ≡ true =
      rw base at (le→leb _ _ half) in
    let place : kernel_index (kernel_first_page_address + i * page_size) ≡ i = rw base at index in
    let sum : 0 + suc n ≡ suc n = omega arith in
    let (after, runs, c) =
      unpage_from_lem n (suc (length table)) table i 0 (omega arith) (omega arith) (omega arith)
        b in
    rw (kernel, place) (after, runs ∙ ap (λ m. ok (m, after)) sum, c)
