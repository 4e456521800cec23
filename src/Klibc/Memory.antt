-- ===== src/Klibc/Memory.antt =====
-- klibc/private/memory.c on a memory of bytes, a function from addresses. A pointer that runs past
-- the end of the address space is undefined in C, and addresses are plain numbers here.
pub mod Copy
pub mod Fill
use aeon_486_os.Base.{ℕ, zero, suc, ◌+◌, ◌*◌, ◌/◌, ◌%◌, ◌^◌, ◌==◌, if◌then◌else◌, nonzero, bit_and}

abbrev pub Memory : Type 0
Memory = ℕ → ℕ

-- `*p = v` for a byte.
unfoldable pub store : Memory → ℕ → ℕ → Memory
store mem p v = λ x. if x == p then v else mem x

-- `*(kuint16_t *) p = v`, low byte first.
unfoldable pub store16 : Memory → ℕ → ℕ → Memory
unfolding store
store16 mem p v = store (store mem p (v % 256)) (p + 1) (v / 256 % 256)

-- The loop of `memcpy`, with `count` rounds left.
unfoldable pub copy_pairs : Memory → ℕ → ℕ → ℕ → Memory
copy_pairs mem dst8 src8 zero = mem
copy_pairs mem dst8 src8 (suc count) =
    let first = store mem dst8 (mem src8) in
    let second = store first (dst8 + 1) (first (src8 + 1)) in
    copy_pairs second (dst8 + 2) (src8 + 2) count

unfoldable pub memcpy : Memory → ℕ → ℕ → ℕ → Memory
memcpy mem dest src count =
    if nonzero (bit_and count 1)
    then copy_pairs (store mem dest (mem src)) (dest + 1) (src + 1) (count / 2)
    else copy_pairs mem dest src (count / 2)

unfoldable pub memset16 : Memory → ℕ → ℕ → ℕ → Memory
memset16 mem p value zero = mem
memset16 mem p value (suc num) = memset16 (store16 mem p value) (p + 2) value num

unfoldable pub memset : Memory → ℕ → ℕ → ℕ → Memory
memset mem p value zero = mem
memset mem p value (suc num) = memset (store mem p (value % 256)) (p + 1) value num
