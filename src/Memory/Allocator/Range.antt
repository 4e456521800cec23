-- ===== src/Memory/Allocator/Range.antt =====
-- `mem_find_first_free_block_range` of memory.c, for more than one block.
use aeon_486_os.Base.{ℕ, zero, suc, ◌+◌, ◌*◌, ◌/◌, ◌%◌, ◌^◌, ◌≤◌, ◌<◌, List, true, false}
use aeon_486_os.Base.{ok, panic, fault, ◌≡◌, ◌⊎◌, inl, inr, refl, arith, ◌∙◌, sym}
use aeon_486_os.Base.{length, get_or, nonzero, Outcome, ◌==◌, read_lem, Bool-cases, some, none}
use aeon_486_os.Base.{Outcome-cases, Panic}
use aeon_486_os.Base.Word.{u32, bit, bit-le-one}
use aeon_486_os.Base.Word.Masks.{nonzero-bit_and-pow}
use aeon_486_os.Memory.Allocator.{Allocator, out_of_memory, enough_free, range_in_word}
use aeon_486_os.Memory.Allocator.{range_from, mem_find_first_free_block_range}
use aeon_486_os.Memory.Allocator.Bitmap.{used}
use aeon_486_os.Memory.Allocator.Search.{BlockAnswer, free, all_used, mem_find_first_free_block_lem}

-- One round at a clear bit.
module _ (mem_map : List ℕ) (size i word left j : ℕ) (nil : nonzero (bit word j) ≡ false) where
  pub range_in_word-found :
      enough_free mem_map (u32 (i * 32 + 2 ^ j)) size (suc size) 0 0 ≡ ok true
      → range_in_word mem_map size i word (suc left) j ≡ ok (some (u32 (i * 32 + j)))
  unfolding range_in_word
  range_in_word-found run = rw (nonzero-bit_and-pow word j, nil, run)

  range_in_word-later :
      enough_free mem_map (u32 (i * 32 + 2 ^ j)) size (suc size) 0 0 ≡ ok false
      → range_in_word mem_map size i word (suc left) j
        ≡ range_in_word mem_map size i word left (j + 1)
  unfolding range_in_word
  range_in_word-later run = rw (nonzero-bit_and-pow word j, nil, run)

  range_in_word-panic :
      {p : Panic}
      → enough_free mem_map (u32 (i * 32 + 2 ^ j)) size (suc size) 0 0 ≡ panic p
      → range_in_word mem_map size i word (suc left) j ≡ panic p
  unfolding range_in_word
  range_in_word-panic run = rw (nonzero-bit_and-pow word j, nil, run)

  range_in_word-fault :
      enough_free mem_map (u32 (i * 32 + 2 ^ j)) size (suc size) 0 0 ≡ fault
      → range_in_word mem_map size i word (suc left) j ≡ fault
  unfolding range_in_word
  range_in_word-fault run = rw (nonzero-bit_and-pow word j, nil, run)

range_in_word-set :
    (mem_map : List ℕ) (size i word left j : ℕ)
    → nonzero (bit word j) ≡ true
    → range_in_word mem_map size i word (suc left) j
      ≡ range_in_word mem_map size i word left (j + 1)
unfolding range_in_word
range_in_word-set mem_map size i word left j one = rw (nonzero-bit_and-pow word j, one)

range_in_word-end :
    (mem_map : List ℕ) (size i word j : ℕ) → range_in_word mem_map size i word 0 j ≡ ok none
unfolding range_in_word
range_in_word-end mem_map size i word j = refl

-- A bit that the loop over a word returns is clear, and lies in the word.
range_in_word_lem :
    (mem_map : List ℕ) (size i word left j b : ℕ)
    → j + left ≡ 32
    → i < 2 ^ 20
    → range_in_word mem_map size i word left j ≡ ok (some b)
    → (b / 32 ≡ i) × (bit word (b % 32) ≡ 0)
range_in_word_lem mem_map size i word zero j b e small found =
    cc (range_in_word-end mem_map size i word j)
range_in_word_lem mem_map size i word (suc left) j b e small found =
    elim (Bool-cases (nonzero (bit word j))) [
      | inl one ↦
          range_in_word_lem mem_map size i word left (j + 1) b (omega arith) small
            (sym (range_in_word-set mem_map size i word left j one) ∙ found)
      | inr nil ↦
          elim (Outcome-cases (enough_free mem_map (u32 (i * 32 + 2 ^ j)) size (suc size) 0 0)) [
            | inl (true, run) ↦
                let hit = range_in_word-found mem_map size i word left j nil run in
                let place : b ≡ u32 (i * 32 + j) = cc hit in
                let word_of : b / 32 ≡ i = omega arith in
                let bit_of : b % 32 ≡ j = omega arith in
                rw (word_of, bit_of) (refl, ground (arith, bit-le-one word j))
            | inl (false, run) ↦
                range_in_word_lem mem_map size i word left (j + 1) b (omega arith) small
                  (sym (range_in_word-later mem_map size i word left j nil run) ∙ found)
            | inr (inl (p, run)) ↦ cc (range_in_word-panic mem_map size i word left j nil run)
            | inr (inr run) ↦ cc (range_in_word-fault mem_map size i word left j nil run)
          ]
    ]

range_from-end : (mem_map : List ℕ) (size i : ℕ) → range_from mem_map size 0 i ≡ ok out_of_memory
unfolding range_from
range_from-end mem_map size i = refl

-- A round over word `i` that ends in a block: the block of a later round, or one of this word.
range_from-inv :
    (mem_map : List ℕ) (size left i b : ℕ)
    → i < length mem_map
    → range_from mem_map size (suc left) i ≡ ok b
    → (range_from mem_map size left (i + 1) ≡ ok b)
      ⊎ (range_in_word mem_map size i (get_or mem_map i 0) 32 0 ≡ ok (some b))
unfolding range_from
range_from-inv mem_map size left i b inside found =
    let word = get_or mem_map i 0 in
    elim (Bool-cases (word == 0xffffffff)) [
      | inl full ↦ inl (rw (read_lem mem_map i inside, full) at found)
      | inr open_word ↦ elim (Outcome-cases (range_in_word mem_map size i word 32 0)) [
        | inl (none, run) ↦ inl (rw (read_lem mem_map i inside, open_word, run) at found)
        | inl (some c, run) ↦
            let same : ok c ≡ ok b = rw (read_lem mem_map i inside, open_word, run) at found in
            inr (run ∙ cc)
        | inr (inl (p, run)) ↦
            let stops : panic p ≡ ok b = rw (read_lem mem_map i inside, open_word, run) at found in
            cc
        | inr (inr run) ↦
            let faults : ◌≡◌ {A = Outcome ℕ} fault (ok b) =
              rw (read_lem mem_map i inside, open_word, run) at found in
            cc
      ]
    ]

-- A block that the search returns is itself free and in the words that it looks at.
range_from_lem :
    (mem_map : List ℕ) (size left i b : ℕ)
    → i + left ≤ length mem_map
    → length mem_map ≤ 2 ^ 20
    → range_from mem_map size left i ≡ ok b
    → (b ≡ out_of_memory) ⊎ ((used mem_map b ≡ 0) × (b < (i + left) * 32))
range_from_lem mem_map size zero i b room small found = inl (cc (range_from-end mem_map size i))
range_from_lem mem_map size (suc left) i b room small found =
    elim (range_from-inv mem_map size left i b (omega arith) found) [
      | inl later ↦ elim (range_from_lem mem_map size left (i + 1) b (omega arith) small later) [
        | inl none_left ↦ inl none_left
        | inr (own, inside) ↦ inr (own, omega arith)
      ]
      | inr here ↦
          let (word_of, own) =
            range_in_word_lem mem_map size i (get_or mem_map i 0) 32 0 b (omega arith) (omega arith)
              here in
          inr (rw word_of own, omega arith)
    ]

-- A block that the search returns, for any number of blocks, is free itself and lies in the words
-- that `block_count` gives, where the map holds those words.
pub range_block_free :
    (a : Allocator) (size b : ℕ)
    → a.block_count / 32 ≤ length a.mem_map
    → length a.mem_map ≤ 2 ^ 20
    → mem_find_first_free_block_range a size ≡ ok b
    → (b ≡ out_of_memory) ⊎ ((used a.mem_map b ≡ 0) × (b < a.block_count / 32 * 32))
unfolding mem_find_first_free_block_range
range_block_free a size b room small found = elim (Bool-cases (size == 1)) [
  | inr many ↦
      let end : 0 + a.block_count / 32 ≡ a.block_count / 32 = omega arith in
      rw end at (
        range_from_lem a.mem_map size (a.block_count / 32) 0 b (omega arith) small
          (rw many at found))
  | inl one ↦
      let (c, runs, answer) = mem_find_first_free_block_lem a room small in
      let same : ok c ≡ ok b = sym runs ∙ (rw one at found) in by_answer (cc) answer
]
  where
    by_answer :
        {c : ℕ}
        → c ≡ b
        → BlockAnswer a.mem_map 0 (a.block_count / 32) c
        → (b ≡ out_of_memory) ⊎ ((used a.mem_map b ≡ 0) × (b < a.block_count / 32 * 32))
    by_answer e (free inside own before) = inr (rw e at own, rw e at inside)
    by_answer e (all_used none_left before) = inl (sym e ∙ none_left)
