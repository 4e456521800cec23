-- ===== src/Memory/Allocator/Bitmap.antt =====
-- The bits of `mem_map` in memory.c, one for each block.
use aeon_486_os.Base.{ℕ, zero, suc, ◌+◌, ◌*◌, ◌/◌, ◌%◌, ◌^◌, ◌≤◌, ◌<◌, List}
use aeon_486_os.Base.{ok, ◌≡◌, ◌≢◌, ◌⊎◌, refl, arith, ◌∙◌, ℕ_discrete}
use aeon_486_os.Base.{
  length, get_or, set, length-set, get_or-set_self, get_or-set_ne, read_lem, write_lem,
}
use aeon_486_os.Base.{bit_and, bit_or, nonzero}
use aeon_486_os.Base.Word.{u32, not32, bit, bit-bit_or, bit-bit_and, bit-le-one}
use aeon_486_os.Base.Word.Masks.{bit-pow_self, bit-pow_ne, bit-not32, nonzero-bit_and-pow, pow-lt}
use aeon_486_os.Memory.Allocator.{mem_memory_map_set, mem_memory_map_unset, mem_memory_map_test}
use aeon_486_os.Memory.Allocator.{set_blocks, unset_blocks}

-- 1 if block `b` is taken, and 0 if it is free.
abbrev pub used : List ℕ → ℕ → ℕ
used mem_map b = bit (get_or mem_map (b / 32) 0) (b % 32)

-- `after` is `before` with the blocks from `b` on, `n` of them, at `v`.
pub record IsMarked (before after : List ℕ) (v n b : ℕ) : Type 0 where
  pub same_length : length after ≡ length before
  pub inside : (c : ℕ) → b ≤ c → c < b + n → used after c ≡ v
  pub outside : (c : ℕ) → (c < b) ⊎ (b + n ≤ c) → used after c ≡ used before c

-- Writing a word that differs in one bit.
one_bit :
    (mem_map : List ℕ) (b word v : ℕ)
    → b / 32 < length mem_map
    → bit word (b % 32) ≡ v
    → ((j : ℕ) → j < 32 → b % 32 ≢ j → bit word j ≡ bit (get_or mem_map (b / 32) 0) j)
    → IsMarked mem_map (set mem_map (b / 32) word) v 1 b
one_bit mem_map b word v room own others = record {
  same_length = length-set mem_map (b / 32) word;
  inside = λ c p q.
      let same : c ≡ b = omega arith in rw (same, get_or-set_self mem_map (b / 32) word 0 room) own;
  outside = λ c p. elim (ℕ_discrete (b / 32) (c / 32)) [
    | yes e ↦
        rw (← e, get_or-set_self mem_map (b / 32) word 0 room)
          (others (c % 32) (omega arith) (omega arith))
    | no ne ↦ rw (get_or-set_ne mem_map (b / 32) (c / 32) word 0 ne)
  ];
}

-- `mem_memory_map_set` marks its block as taken and no other.
mem_memory_map_set_lem :
    (mem_map : List ℕ) (b : ℕ)
    → b / 32 < length mem_map
    → (after : List ℕ) × (mem_memory_map_set mem_map b ≡ ok after) × IsMarked mem_map after 1 1 b
unfolding mem_memory_map_set
mem_memory_map_set_lem mem_map b room =
    let word = get_or mem_map (b / 32) 0 in
    let word' = bit_or word (2 ^ (b % 32)) in
    let own : bit word' (b % 32) ≡ 1 =
      rw (bit-bit_or word (2 ^ (b % 32)) (b % 32), bit-pow_self (b % 32))
        (omega (arith, bit-le-one word (b % 32))) in
    rw (read_lem mem_map (b / 32) room, write_lem mem_map (b / 32) word' room)
      (
        set mem_map (b / 32) word',
        refl,
        one_bit mem_map b word' 1 room own
            λ j p ne. rw (bit-bit_or word (2 ^ (b % 32)) j, bit-pow_ne (b % 32) j ne) (omega arith),
      )

-- `mem_memory_map_unset` marks its block as free and no other.
mem_memory_map_unset_lem :
    (mem_map : List ℕ) (b : ℕ)
    → b / 32 < length mem_map
    → (after : List ℕ) × (mem_memory_map_unset mem_map b ≡ ok after) × IsMarked mem_map after 0 1 b
unfolding mem_memory_map_unset
mem_memory_map_unset_lem mem_map b room =
    let word = get_or mem_map (b / 32) 0 in
    let mask = not32 (2 ^ (b % 32)) in
    let word' = bit_and word mask in
    let small : 2 ^ (b % 32) < 2 ^ 32 = pow-lt (b % 32) (omega arith) in
    let own : bit word' (b % 32) ≡ 0 =
      rw
        (
          bit-bit_and word mask (b % 32),
          bit-not32 (2 ^ (b % 32)) (b % 32) small (omega arith),
          bit-pow_self (b % 32),
        )
        (omega arith) in
    rw (read_lem mem_map (b / 32) room, write_lem mem_map (b / 32) word' room)
      (
        set mem_map (b / 32) word',
        refl,
        one_bit mem_map b word' 0 room own λ j p ne.
            rw
              (
                bit-bit_and word mask j,
                bit-not32 (2 ^ (b % 32)) j small p,
                bit-pow_ne (b % 32) j ne,
              )
              (omega (arith, bit-le-one word j)),
      )

-- `mem_memory_map_test` reads its block's bit.
pub mem_memory_map_test_lem :
    (mem_map : List ℕ) (b : ℕ)
    → b / 32 < length mem_map
    → mem_memory_map_test mem_map b ≡ ok (nonzero (used mem_map b))
unfolding mem_memory_map_test
mem_memory_map_test_lem mem_map b room =
    rw (read_lem mem_map (b / 32) room, nonzero-bit_and-pow (get_or mem_map (b / 32) 0) (b % 32))

IsMarked-suc :
    (before mid after : List ℕ) (v n b : ℕ)
    → IsMarked before mid v 1 b
    → IsMarked mid after v n (b + 1)
    → IsMarked before after v (suc n) b
IsMarked-suc before mid after v n b m r = record {
  same_length = r.same_length ∙ m.same_length;
  inside = λ c p q. elim (ℕ_discrete b c) [
    | yes e ↦ r.outside c (omega arith) ∙ m.inside c p (omega arith)
    | no ne ↦ r.inside c (omega arith) (omega arith)
  ];
  outside = λ c p. r.outside c (omega arith) ∙ m.outside c (omega arith);
}

IsMarked-nil : {mem_map : List ℕ} {v b : ℕ} → IsMarked mem_map mem_map v 0 b
IsMarked-nil = record {
  same_length = refl;
  inside = λ c p q. absurd (omega arith);
  outside = λ c p. refl;
}

-- The loop of `kmalloc` takes `n` blocks from `b` on and no other.
pub set_blocks_lem :
    (n : ℕ) (mem_map : List ℕ) (b : ℕ)
    → b + n ≤ 32 * length mem_map
    → b + n ≤ 2 ^ 32
    → (after : List ℕ) × (set_blocks mem_map n b ≡ ok after) × IsMarked mem_map after 1 n b
unfolding set_blocks
set_blocks_lem zero mem_map b room small = (mem_map, refl, IsMarked-nil)
set_blocks_lem (suc n) mem_map b room small =
    let (mid, set, m) = mem_memory_map_set_lem mem_map b (omega arith) in
    let (after, runs, r) =
      set_blocks_lem n mid (b + 1) (omega (arith, m.same_length)) (omega arith) in
    let word : u32 b ≡ b = omega arith in
    rw (word, set) (after, runs, IsMarked-suc mem_map mid after 1 n b m r)

-- The loop of `kfree` frees `n` blocks from `b` on and no other.
pub unset_blocks_lem :
    (n : ℕ) (mem_map : List ℕ) (b : ℕ)
    → b + n ≤ 32 * length mem_map
    → b + n ≤ 2 ^ 32
    → (after : List ℕ) × (unset_blocks mem_map n b ≡ ok after) × IsMarked mem_map after 0 n b
unfolding unset_blocks
unset_blocks_lem zero mem_map b room small = (mem_map, refl, IsMarked-nil)
unset_blocks_lem (suc n) mem_map b room small =
    let (mid, set, m) = mem_memory_map_unset_lem mem_map b (omega arith) in
    let (after, runs, r) =
      unset_blocks_lem n mid (b + 1) (omega (arith, m.same_length)) (omega arith) in
    let word : u32 b ≡ b = omega arith in
    rw (word, set) (after, runs, IsMarked-suc mem_map mid after 0 n b m r)
