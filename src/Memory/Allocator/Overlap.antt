-- ===== src/Memory/Allocator/Overlap.antt =====
-- Where `mem_find_first_free_block_range` of memory.c answers with a run that is not free: it looks
-- for the run from bit `1 << j` on instead of bit `j`.
use aeon_486_os.Base.{ℕ, suc, ◌-◌, ◌/◌, ◌≤◌, ◌<◌, List, true, false}
use aeon_486_os.Base.{ok, ◌≡◌, inl, inr, refl, arith}
use aeon_486_os.Base.{length, get_or, ◌==◌, read_lem, Bool-cases, some}
use aeon_486_os.Memory.Paging.{page_count_of}
use aeon_486_os.Base.Word.Masks.{bit_full}
use aeon_486_os.Memory.Allocator.{Kernel, Allocator, enough_free, range_in_word}
use aeon_486_os.Memory.Allocator.{range_from, mem_find_first_free_block_range}
use aeon_486_os.Memory.Allocator.Bitmap.{used, mem_memory_map_test_lem}
use aeon_486_os.Memory.Allocator.Kmalloc.{IsValid, TakeResult, kmalloc_found}
use aeon_486_os.Memory.Allocator.Range.{range_in_word-found}

-- Blocks 0, 2 and 3 are free and block 1 is taken.
pub record HasGap (mem_map : List ℕ) : Type 0 where
  pub word : 0 < length mem_map
  pub zeroth : used mem_map 0 ≡ 0
  pub first : used mem_map 1 ≡ 1
  pub second : used mem_map 2 ≡ 0
  pub third : used mem_map 3 ≡ 0

-- The run is looked for from bit `2 ^ 0` on, and with one block more than asked for.
enough_free-gap : (mem_map : List ℕ) → HasGap mem_map → enough_free mem_map 1 2 3 0 0 ≡ ok true
unfolding enough_free
enough_free-gap mem_map g = rw (
  mem_memory_map_test_lem mem_map 1 g.word,
  g.first,
  mem_memory_map_test_lem mem_map 2 g.word,
  g.second,
  mem_memory_map_test_lem mem_map 3 g.word,
  g.third,
)

gap_not_full : (mem_map : List ℕ) → HasGap mem_map → (get_or mem_map 0 0 == 0xffffffff) ≡ false
gap_not_full mem_map g = elim (Bool-cases (get_or mem_map 0 0 == 0xffffffff)) [
  | inr e ↦ e
  | inl e ↦
      let full : get_or mem_map 0 0 ≡ 0xffffffff = ground arith in
      let one : used mem_map 0 ≡ 1 = rw full (bit_full 0 (omega arith)) in
      absurd (omega (arith, g.zeroth))
]

range_in_word-gap :
    (mem_map : List ℕ)
    → HasGap mem_map
    → range_in_word mem_map 2 0 (get_or mem_map 0 0) 32 0 ≡ ok (some 0)
range_in_word-gap mem_map g =
    range_in_word-found mem_map 2 0 (get_or mem_map 0 0) 31 0 (rw g.zeroth refl)
      (enough_free-gap mem_map g)

range_from-gap :
    (mem_map : List ℕ) (left : ℕ) → HasGap mem_map → range_from mem_map 2 (suc left) 0 ≡ ok 0
unfolding range_from
range_from-gap mem_map left g =
    rw (read_lem mem_map 0 g.word, gap_not_full mem_map g, range_in_word-gap mem_map g)

range-gap :
    (a : Allocator)
    → 32 ≤ a.block_count
    → HasGap a.mem_map
    → mem_find_first_free_block_range a 2 ≡ ok 0
unfolding mem_find_first_free_block_range
range-gap a many g =
    let left : a.block_count / 32 ≡ suc (a.block_count / 32 - 1) = omega arith in
    rw left (range_from-gap a.mem_map (a.block_count / 32 - 1) g)

-- With blocks 0, 2 and 3 free and block 1 taken, a request of 4096 to 8191 bytes is given blocks 0
-- and 1: it is mapped over the block that is taken, or stops for want of pages.
pub kmalloc_overlap :
    (k : Kernel) (size : ℕ)
    → IsValid k
    → 32 ≤ k.allocator.block_count
    → HasGap k.allocator.mem_map
    → size / 4096 ≡ 1
    → TakeResult k size 0
kmalloc_overlap k size v many g two =
    let count : page_count_of size ≡ 2 = omega arith in
    kmalloc_found k size 0 v (omega arith) (rw count (range-gap k.allocator many g))
      (omega (arith, g.word))
