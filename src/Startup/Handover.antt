-- ===== src/Startup/Handover.antt =====
-- The kernel's three page tables, as kernel/boot.s hands them over.
use aeon_486_os.Base.{ℕ, zero, suc, ◌+◌, ◌-◌, ◌*◌, ◌≤◌, ◌<◌, ◌≡◌, ◌⊎◌, inl, inr}
use aeon_486_os.Base.{refl, arith, ◌∙◌, ap, ok, length, get_or, List, dec_lt, ℕ_discrete}
use aeon_486_os.Base.Word.Masks.{bit_and-page_mask}
use aeon_486_os.Memory.Paging.{compute_highest_free_address}
use aeon_486_os.Memory.Paging.Highest.{frame_at, compute_highest_free_address_lem}
use aeon_486_os.Memory.Paging.Find.{IsFreeRun}
use aeon_486_os.Startup.{Words, Image, page_table_C0000000, words_from}
use aeon_486_os.Startup.Tables.{IsPlaced, HasTables}
use aeon_486_os.Startup.Space.{IsCleared}

pub length-words_from : (words : Words) (address n : ℕ) → length (words_from words address n) ≡ n
unfolding words_from
length-words_from words address zero = refl
length-words_from words address (suc n) = ap suc (length-words_from words (address + 4) n)

get_or-words_from :
    (words : Words) (address n i : ℕ)
    → i < n
    → get_or (words_from words address n) i 0 ≡ words (address + i * 4)
unfolding words_from
get_or-words_from words address zero i h = absurd (omega arith)
get_or-words_from words address (suc n) zero h = ap words (omega arith)
get_or-words_from words address (suc n) (suc i) h =
    get_or-words_from words (address + 4) n i (omega arith) ∙ ap words (omega arith)

get_or-behind :
    (words : Words) (address n i : ℕ) → n ≤ i → get_or (words_from words address n) i 0 ≡ 0
unfolding words_from
get_or-behind words address zero i h = refl
get_or-behind words address (suc n) zero h = absurd (omega arith)
get_or-behind words address (suc n) (suc i) h = get_or-behind words (address + 4) n i (omega arith)

-- The kernel's three page tables.
abbrev pub kernel_tables : Image → Words → List ℕ
kernel_tables image words = words_from words (page_table_C0000000 image) 3072

module _ (image : Image) (before after : Words) (low identity kernel : ℕ) (placed : IsPlaced image)
    (cleared : IsCleared image before) (few : identity ≤ 1024) (few' : kernel ≤ 1023)
    (some_pages : 256 < kernel) (has : HasTables image before after low identity kernel) where
  abbrev tables : List ℕ
  tables = kernel_tables image after

  -- An entry of the kernel, the screen's, and one that is not written.
  entry_cases :
      (k : ℕ)
      → ((256 ≤ k) × (k < kernel) × (get_or tables k 0 ≡ k * 4096 + 0x803))
        ⊎ (((k ≡ 1023) × (get_or tables k 0 ≡ 0xB8003)) ⊎ (get_or tables k 0 ≡ 0))
  entry_cases k = elim (dec_lt k 3072) [
    | no past ↦ inr (inr (get_or-behind after (page_table_C0000000 image) 3072 k (omega arith)))
    | yes inside ↦
        let at = get_or-words_from after (page_table_C0000000 image) 3072 k inside in
        elim (ℕ_discrete k 1023) [
          | yes last ↦ inr (
              inl (
                last,
                at ∙ ap (λ (n : ℕ). after (page_table_C0000000 image + n * 4)) last ∙ has.screen,
              ))
          | no other ↦
              let nil = λ (outside : (k < 256) ⊎ (kernel ≤ k)).
                at
                ∙ has.others (page_table_C0000000 image + k * 4) (omega arith) (omega arith)
                    (omega arith) (omega arith) (omega arith) (omega arith) (omega arith)
                ∙ cleared (page_table_C0000000 image + k * 4) (omega arith) (omega arith) in
              elim (dec_lt k 256) [
                | yes below ↦ inr (inr (nil (inl below)))
                | no from ↦ elim (dec_lt k kernel) [
                  | yes to ↦ inl (omega arith, to, at ∙ has.upper k (omega arith) to)
                  | no past ↦ inr (inr (nil (inr (omega arith))))
                ]
              ]
        ]
  ]

  -- Each frame lies below the end of the kernel.
  frame : (k : ℕ) → frame_at tables k + 4096 ≤ kernel * 4096
  frame k = elim (entry_cases k) [
    | inl (from, to, e) ↦ rw (e, bit_and-page_mask (k * 4096 + 0x803) (omega arith)) (omega arith)
    | inr (inl (last, e)) ↦ rw e (omega (arith, bit_and-page_mask 0xB8003 (omega arith)))
    | inr (inr e) ↦ rw e (omega (arith, bit_and-page_mask 0 (omega arith)))
  ]

  last_frame : frame_at tables (kernel - 1) + 4096 ≡ kernel * 4096
  last_frame =
      let k = kernel - 1 in
      let e =
        get_or-words_from after (page_table_C0000000 image) 3072 k (omega arith)
        ∙ has.upper k (omega arith) (omega arith) in
      rw (e, bit_and-page_mask (k * 4096 + 0x803) (omega arith)) (omega arith)

  pub highest : compute_highest_free_address tables ≡ ok (kernel * 4096)
  highest =
      let (top, runs, above, reached) =
        compute_highest_free_address_lem tables
          (length-words_from after (page_table_C0000000 image) 3072)
          (λ j. omega (arith, frame j)) in
      let least = above (kernel - 1) (omega arith) in
      let e : top ≡ kernel * 4096 = elim reached [
        | inl one ↦ omega (arith, last_frame)
        | inr (j, inside, at) ↦ omega (arith, last_frame, frame j)
      ] in
      runs ∙ ap ok e

  pub room : IsFreeRun tables 3 0
  room k h =
      let here : 0 + k ≡ k = omega arith in
      rw here (elim (entry_cases k) [
        | inl (from, to, e) ↦ absurd (omega arith)
        | inr (inl (last, e)) ↦ absurd (omega arith)
        | inr (inr e) ↦ rw e refl
      ])
