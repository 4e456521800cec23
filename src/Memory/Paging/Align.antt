-- ===== src/Memory/Paging/Align.antt =====
-- `align` and `page_align` of kernel/memory/memory.c.
use aeon_486_os.Base.{ℕ, zero, suc, ◌-◌, ◌*◌, ◌/◌, ◌^◌, ◌≤◌, ◌<◌, ◌≡◌, arith}
use aeon_486_os.Base.Word.{sub32}
use aeon_486_os.Base.Word.Masks.{bit_and_high, bit_and_low, pow-pos, pow_split}
use native.Mathlib.Nat.{div-lt_iff_lt-mul, mod-eq_of_lt}
use aeon_486_os.Memory.Paging.{align, page_align}

-- `-p` is the multiple of `p` below 2^32, for a divisor `p` of 2^32.
negated : (q p : ℕ) → q * p ≡ 2 ^ 32 → 1 ≤ p → sub32 0 p ≡ (q - 1) * p
negated zero p e h = absurd (omega arith)
negated (suc q) p e h = let less : suc q - 1 ≡ q = omega arith in rw less (omega arith)

-- `align (ptr, 2 ^ k)` is the largest multiple of `2 ^ k` that is at most `ptr`.
pub align_lem : (k ptr : ℕ) → k ≤ 32 → ptr < 2 ^ 32 → align ptr (2 ^ k) ≡ ptr / 2 ^ k * 2 ^ k
unfolding align
align_lem k ptr h small =
    let split : 2 ^ (32 - k) * 2 ^ k ≡ 2 ^ 32 = pow_split k 32 h in
    let mask : sub32 0 (2 ^ k) ≡ (2 ^ (32 - k) - 1) * 2 ^ k =
      negated (2 ^ (32 - k)) (2 ^ k) split (pow-pos k) in
    let quotient : ptr / 2 ^ k < 2 ^ (32 - k) =
      (div-lt_iff_lt-mul (pow-pos k)).1 (omega (arith, split)) in
    rw (
      mask,
      bit_and_high k ptr (2 ^ (32 - k) - 1),
      bit_and_low (32 - k) (ptr / 2 ^ k),
      mod-eq_of_lt quotient,
    )

-- `page_align` clears the offset into the page.
pub page_align_lem : (ptr : ℕ) → ptr < 2 ^ 32 → page_align ptr ≡ ptr / 4096 * 4096
unfolding page_align
page_align_lem ptr small = align_lem 12 ptr (omega arith) small
