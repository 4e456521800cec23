-- ===== src/Memory/Allocator/Search.antt =====
-- `mem_find_first_free_block` of memory.c.
use aeon_486_os.Base.{ℕ, zero, suc, ◌+◌, ◌*◌, ◌/◌, ◌%◌, ◌^◌, ◌≤◌, ◌<◌, List}
use aeon_486_os.Base.{ok, ◌≡◌, inl, inr, refl, arith, dec_lt}
use aeon_486_os.Base.{length, get_or, read_lem, nonzero, Bool-cases, from_suc, ◌==◌}
use aeon_486_os.Base.{Option, some, none, Option-cases}
use aeon_486_os.Base.Word.{u32, bit, bit-le-one}
use aeon_486_os.Base.Word.Masks.{nonzero-bit_and-pow, bit_full}
use aeon_486_os.Memory.Allocator.{Allocator, mem_find_first_free_block, free_block_from}
use aeon_486_os.Memory.Allocator.{clear_bit_from, out_of_memory}
use aeon_486_os.Memory.Allocator.Bitmap.{used}

-- The first clear bit of a word from `lo` on, or none below 32.
data BitAnswer (word lo : ℕ) : Option ℕ → Type 0 where
  clear :
      (j : ℕ)
      → j < 32
      → bit word j ≡ 0
      → ((k : ℕ) → lo ≤ k → k < j → bit word k ≡ 1)
      → BitAnswer word lo (some j)
  all_set : ((k : ℕ) → lo ≤ k → k < 32 → bit word k ≡ 1) → BitAnswer word lo none

clear_bit_from_lem :
    (word left j : ℕ) → j + left ≡ 32 → BitAnswer word j (clear_bit_from word left j)
unfolding clear_bit_from
clear_bit_from_lem word zero j e = all_set (λ k p q. absurd (omega arith))
clear_bit_from_lem word (suc left) j e =
    rw (nonzero-bit_and-pow word j) (elim (Bool-cases (nonzero (bit word j))) [
      | inl one ↦ rw one (
          later (ground (arith, bit-le-one word j))
            (clear_bit_from_lem word left (j + 1) (omega arith)))
      | inr nil ↦ rw nil (clear j (omega arith) (ground arith) (λ k p q. absurd (omega arith)))
    ])
  where
    later : {o : Option ℕ} → bit word j ≡ 1 → BitAnswer word (j + 1) o → BitAnswer word j o
    later one (clear c inside free before) =
        clear c inside free (from_suc (λ k. k < c → bit word k ≡ 1) j (λ _. one) before)
    later one (all_set before) =
        all_set (from_suc (λ k. k < 32 → bit word k ≡ 1) j (λ _. one) before)

clear_inv :
    {word lo j : ℕ}
    → BitAnswer word lo (some j)
    → (j < 32) × (bit word j ≡ 0) × ((k : ℕ) → lo ≤ k → k < j → bit word k ≡ 1)
clear_inv (clear j inside nil before) = (inside, nil, before)

all_set_inv : {word lo : ℕ} → BitAnswer word lo none → (k : ℕ) → lo ≤ k → k < 32 → bit word k ≡ 1
all_set_inv (all_set before) = before

-- The first free block from word `lo` on and below word `hi`, or OUT_OF_MEMORY if all are taken.
pub data BlockAnswer (mem_map : List ℕ) (lo hi : ℕ) : ℕ → Type 0 where
  free :
      {b : ℕ}
      → b < hi * 32
      → used mem_map b ≡ 0
      → ((c : ℕ) → lo * 32 ≤ c → c < b → used mem_map c ≡ 1)
      → BlockAnswer mem_map lo hi b
  all_used :
      {b : ℕ}
      → b ≡ out_of_memory
      → ((c : ℕ) → lo * 32 ≤ c → c < hi * 32 → used mem_map c ≡ 1)
      → BlockAnswer mem_map lo hi b

-- A word of taken blocks in front.
full_word :
    {mem_map : List ℕ} {lo hi b : ℕ}
    → ((j : ℕ) → j < 32 → bit (get_or mem_map lo 0) j ≡ 1)
    → BlockAnswer mem_map (lo + 1) hi b
    → BlockAnswer mem_map lo hi b
full_word {mem_map} {lo} {hi} {b} full (free inside own before) = free inside own (λ c p q.
    elim (dec_lt c ((lo + 1) * 32)) [
      | yes h ↦ let place : c / 32 ≡ lo = omega arith in rw place (full (c % 32) (omega arith))
      | no h ↦ before c (omega arith) q
    ])
full_word {mem_map} {lo} {hi} {b} full (all_used e before) = all_used e (λ c p q.
    elim (dec_lt c ((lo + 1) * 32)) [
      | yes h ↦ let place : c / 32 ≡ lo = omega arith in rw place (full (c % 32) (omega arith))
      | no h ↦ before c (omega arith) q
    ])

free_block_from_lem :
    (mem_map : List ℕ) (left i : ℕ)
    → i + left ≤ length mem_map
    → length mem_map ≤ 2 ^ 20
    → (b : ℕ) × (free_block_from mem_map left i ≡ ok b) × BlockAnswer mem_map i (i + left) b
unfolding free_block_from
free_block_from_lem mem_map zero i room small =
    (out_of_memory, refl, all_used refl (λ c p q. absurd (omega arith)))
free_block_from_lem mem_map (suc left) i room small =
    let word = get_or mem_map i 0 in
    let (b, runs, answer) = free_block_from_lem mem_map left (i + 1) (omega arith) small in
    let end : i + 1 + left ≡ i + suc left = omega arith in
    let answer' : BlockAnswer mem_map (i + 1) (i + suc left) b = rw end at answer in
    let first_bit = clear_bit_from_lem word 32 0 (omega arith) in
    rw (read_lem mem_map i (omega arith)) (elim (Bool-cases (word == 0xffffffff)) [
      | inl full ↦
          let ones : word ≡ 0xffffffff = ground arith in
          rw full (b, runs, full_word (λ j p. rw ones (bit_full j p)) answer')
      | inr some_clear ↦ rw some_clear (elim (Option-cases (clear_bit_from word 32 0)) [
        | inl e ↦
            rw e (
              b,
              runs,
              full_word (λ j p. all_set_inv (rw e at first_bit) j (omega arith) p) answer',
            )
        | inr (j, e) ↦
            let (inside, nil, before) = clear_inv (rw e at first_bit) in
            let at_word : (i * 32 + j) / 32 ≡ i = omega arith in
            let at_bit : (i * 32 + j) % 32 ≡ j = omega arith in
            let wrap : u32 (i * 32 + j) ≡ i * 32 + j = omega arith in
            rw (e, wrap)
              (
                i * 32 + j,
                refl,
                free {b = i * 32 + j} (omega arith) (rw (at_word, at_bit) nil) (λ c p q.
                    let c_word : c / 32 ≡ i = omega arith in
                    rw c_word (before (c % 32) (omega arith) (omega arith))),
              )
      ])
    ])

-- With the words that `block_count` asks for in the map, the search returns: the first free block
-- of those words, or OUT_OF_MEMORY if all their blocks are taken.
pub mem_find_first_free_block_lem :
    (a : Allocator)
    → a.block_count / 32 ≤ length a.mem_map
    → length a.mem_map ≤ 2 ^ 20
    → (b : ℕ) × (mem_find_first_free_block a ≡ ok b)
      × BlockAnswer a.mem_map 0 (a.block_count / 32) b
unfolding mem_find_first_free_block
mem_find_first_free_block_lem a room small =
    let (b, runs, answer) =
      free_block_from_lem a.mem_map (a.block_count / 32) 0 (omega arith) small in
    let end : 0 + a.block_count / 32 ≡ a.block_count / 32 = omega arith in
    (b, runs, rw end at answer)
