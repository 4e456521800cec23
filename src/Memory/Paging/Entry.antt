-- ===== src/Memory/Paging/Entry.antt =====
-- The fields of a page table entry, and the indices in a kernel address.
use aeon_486_os.Base.{ℕ, ◌+◌, ◌*◌, ◌/◌, ◌%◌, ◌^◌, ◌≤◌, ◌<◌, true, false}
use aeon_486_os.Base.{◌≡◌, ◌∙◌, arith, bit_and, bit_or, nonzero, ◌==◌, Bool-cases, inl, inr}
use aeon_486_os.Base.Word.{u32, not32, bit, bit-bit_or, bit-le-one}
use aeon_486_os.Base.Word.Masks.{nonzero-bit_and-pow, bit-mul_pow, bit-pow_ne, bit-pow_self}
use aeon_486_os.Base.Word.Masks.{bit_and-page_mask, div-bit_or, bit_or-lt, bit_and_low, bit_or-zero}
use aeon_486_os.Memory.Paging.{page_entry, page_size, ptf_user, ptf_aeon_locked, in_use}
use aeon_486_os.Memory.Paging.{ptf_aeon_end_of_block, kernel_index, kernel_first_page_address}
use aeon_486_os.Memory.Paging.{page_dir_index, page_table_index}
use aeon_486_os.Memory.Paging.Mapping.{entry_of}

-- Flags that leave the frame, PTF_USER and the two AEON bits alone.
pub record IsKernelFlags (flags : ℕ) : Type 0 where
  pub small : flags < page_size
  pub no_user : nonzero (bit_and flags ptf_user) ≡ false
  pub no_end : nonzero (bit_and flags ptf_aeon_end_of_block) ≡ false
  pub no_lock : nonzero (bit_and flags ptf_aeon_locked) ≡ false

-- A clear test is a clear bit, and the other way round.
bit_of_test : (w k : ℕ) → nonzero (bit_and w (2 ^ k)) ≡ false → bit w k ≡ 0
bit_of_test w k h = ground (arith, nonzero-bit_and-pow w k)

-- A page aligned 32-bit address.
frame_address : (f k : ℕ) → u32 (f * page_size + k * page_size) ≡ (f + k) % 2 ^ 20 * 2 ^ 12
frame_address f k = omega arith

module _ (f k flags : ℕ) (fl : IsKernelFlags flags) where
  abbrev entry : ℕ
  entry = page_entry (u32 (f * page_size + k * page_size)) flags

  bit-entry : (j : ℕ) → j < 12 → bit flags j ≡ 0 → bit (2 ^ 0) j ≡ 0 → bit entry j ≡ 0
  bit-entry j h clear one = rw (
    bit-bit_or (bit_or (u32 (f * page_size + k * page_size)) flags) (2 ^ 0) j,
    bit-bit_or (u32 (f * page_size + k * page_size)) flags j,
    frame_address f k,
    bit-mul_pow 12 ((f + k) % 2 ^ 20) j h,
    clear,
    one,
  )

  entry_unlocked : bit entry 11 ≡ 0
  entry_unlocked =
      bit-entry 11 (omega arith) (bit_of_test flags 11 fl.no_lock) (bit-pow_ne 0 11 (omega arith))

  entry_open : bit entry 10 ≡ 0
  entry_open =
      bit-entry 10 (omega arith) (bit_of_test flags 10 fl.no_end) (bit-pow_ne 0 10 (omega arith))

  frame-entry : entry / 2 ^ 12 * 2 ^ 12 ≡ u32 (f * page_size + k * page_size)
  frame-entry =
      let q = (f + k) % 2 ^ 20 in
      let whole : q * 2 ^ 12 / 2 ^ 12 ≡ q = omega arith in
      let low : flags / 2 ^ 12 ≡ 0 = omega (arith, fl.small) in
      let bit_of_one : 2 ^ 0 / 2 ^ 12 ≡ 0 = omega arith in
      rw (
        div-bit_or 12 (bit_or (u32 (f * page_size + k * page_size)) flags) (2 ^ 0),
        div-bit_or 12 (u32 (f * page_size + k * page_size)) flags,
        frame_address f k,
        whole,
        low,
        bit_of_one,
        bit_or-zero q,
        bit_or-zero q,
      )

  entry-lt : entry < 2 ^ 32
  entry-lt =
      bit_or-lt 32 (bit_or (u32 (f * page_size + k * page_size)) flags) 1
        (bit_or-lt 32 (u32 (f * page_size + k * page_size)) flags (omega arith)
          (omega (arith, fl.small)))
        (omega arith)

  entry_present : bit entry 0 ≡ 1
  entry_present =
      let one : bit (2 ^ 0) 0 ≡ 1 = bit-pow_self 0 in
      rw (bit-bit_or (bit_or (u32 (f * page_size + k * page_size)) flags) (2 ^ 0) 0, one)
        (omega (arith, bit-le-one (bit_or (u32 (f * page_size + k * page_size)) flags) 0))

  -- The last entry of a block, with its mark.
  abbrev last_entry : ℕ
  last_entry = bit_or entry ptf_aeon_end_of_block

  last_unlocked : bit last_entry 11 ≡ 0
  last_unlocked = rw (bit-bit_or entry (2 ^ 10) 11, entry_unlocked, bit-pow_ne 10 11 (omega arith))

  last_end : bit last_entry 10 ≡ 1
  last_end = rw (bit-bit_or entry (2 ^ 10) 10, entry_open, bit-pow_self 10)

  frame-last : last_entry / 2 ^ 12 * 2 ^ 12 ≡ u32 (f * page_size + k * page_size)
  frame-last =
      let mark : 2 ^ 10 / 2 ^ 12 ≡ 0 = omega arith in
      rw (div-bit_or 12 entry (2 ^ 10), mark, bit_or-zero (entry / 2 ^ 12)) frame-entry

  -- The `k`-th of `n` pages of a block: present, not locked, an end of block exactly if it is the
  -- last, and mapped to the `k`-th frame.
  pub entry_of-unlocked :
      (n : ℕ) → nonzero (bit_and (entry_of (f * page_size) flags n k) ptf_aeon_locked) ≡ false
  entry_of-unlocked n = elim (Bool-cases (k + 1 == n)) [
    | inl last ↦ rw (last, nonzero-bit_and-pow last_entry 11, last_unlocked)
    | inr mid ↦ rw (mid, nonzero-bit_and-pow entry 11, entry_unlocked)
  ]

  pub entry_of-end :
      (n : ℕ)
      → nonzero (bit_and (entry_of (f * page_size) flags n k) ptf_aeon_end_of_block) ≡ (k + 1 == n)
  entry_of-end n = elim (Bool-cases (k + 1 == n)) [
    | inl last ↦ rw (last, nonzero-bit_and-pow last_entry 10, last_end)
    | inr mid ↦ rw (mid, nonzero-bit_and-pow entry 10, entry_open)
  ]

  pub entry_of-in_use : (n : ℕ) → in_use (entry_of (f * page_size) flags n k) ≡ true
  entry_of-in_use n = elim (Bool-cases (k + 1 == n)) [
    | inl last ↦ rw (
      last,
      nonzero-bit_and-pow last_entry 0,
      bit-bit_or entry (2 ^ 10) 0,
      entry_present,
      bit-pow_ne 10 0 (omega arith),
    )
    | inr mid ↦ rw (mid, nonzero-bit_and-pow entry 0, entry_present)
  ]

  pub entry_of-frame :
      (n : ℕ)
      → bit_and (entry_of (f * page_size) flags n k) (not32 0xfff)
        ≡ u32 (f * page_size + k * page_size)
  entry_of-frame n = elim (Bool-cases (k + 1 == n)) [
    | inl last ↦
        rw (last, bit_and-page_mask last_entry (bit_or-lt 32 entry (2 ^ 10) entry-lt (omega arith)))
          frame-last
    | inr mid ↦ rw (mid, bit_and-page_mask entry entry-lt) frame-entry
  ]

-- The kernel's tables are the 1024-entry tables from directory entry 768 on, in order.
pub kernel_index_lem :
    (i o : ℕ)
    → i < 3072
    → o < page_size
    → (768 ≤ page_dir_index (kernel_first_page_address + i * page_size + o))
      × (kernel_index (kernel_first_page_address + i * page_size + o) ≡ i)
kernel_index_lem i o h fits =
    let va = kernel_first_page_address + i * page_size + o in
    let dir : page_dir_index va ≡ 768 + i / 1024 = bit_and_low 10 (va / 2 ^ 22) ∙ omega arith in
    let idx : page_table_index va ≡ i % 1024 = bit_and_low 10 (va / 2 ^ 12) ∙ omega arith in
    rw (dir, idx) (omega arith)
