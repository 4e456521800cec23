-- ===== src/Base/Word/Masks.antt =====
-- Single-bit masks, complements and the alignment masks, bit by bit and as arithmetic.
use Prim.Native.Nat.{ℕ, zero, suc, ◌+◌, ◌-◌, ◌*◌, ◌/◌, ◌%◌, ◌^◌, ◌≤◌, ◌<◌}
use Prim.Native.Nat.{bit_and, bit_or}
use mathlib.Core.Path.{◌≡◌, refl, ap, ◌∙◌}
use mathlib.Core.Logic.{◌≢◌, inl, inr}
use mathlib.Core.Bool.{true}
use native.Mathlib.Nat.{
  pow-suc, one-le-pow, div-div-eq-div-mul, mod-eq-sub-div-mul, div-mul-le_self,
}
use native.Mathlib.Nat.{mul-one, div-one}
use native.Mathlib.Omega.{arith}
use aeon_486_os.Base.Tests.{nonzero, Bool-cases}
use aeon_486_os.Base.Word.{bit, bit-le-one, not32}
use aeon_486_os.Base.Word.Step.{bit_and_step, bit_or_step}

mul-pow-suc : (q k : ℕ) → q * 2 ^ suc k ≡ 2 * (q * 2 ^ k)
mul-pow-suc q k = omega (arith, ap (λ (t : ℕ). q * t) (pow-suc 2 k))

half-mul-pow : (q k : ℕ) → q * 2 ^ suc k / 2 ≡ q * 2 ^ k
half-mul-pow q k = omega (arith, mul-pow-suc q k)

div-pow-suc : (a k : ℕ) → a / 2 / 2 ^ k ≡ a / 2 ^ suc k
div-pow-suc a k = rw (div-div-eq-div-mul a 2 (2 ^ k)) (ap (λ t. a / t) (omega (arith, pow-suc 2 k)))

-- Induction that halves the number.
pub by_halves {ℓ} : (P : ℕ → Type ℓ) → P 0 → ((a : ℕ) → P (suc a / 2) → P (suc a)) → (a : ℕ) → P a
by_halves P base step a = upto a a (omega arith)
  where
    upto : (limit x : ℕ) → x ≤ limit → P x
    upto limit zero fits = base
    upto (suc limit) (suc x) fits = step x (upto limit (suc x / 2) (omega arith))
    upto zero (suc x) fits = elim fits [ ]

pub bit_and-zero : (a : ℕ) → bit_and a 0 ≡ 0
bit_and-zero = by_halves (λ x. bit_and x 0 ≡ 0) refl λ x half. omega (arith, bit_and_step (suc x) 0)

pub bit_or-zero : (a : ℕ) → bit_or a 0 ≡ a
bit_or-zero = by_halves (λ x. bit_or x 0 ≡ x) refl λ x half. omega (arith, bit_or_step (suc x) 0)

-- A mask of one bit reads that bit.
pub bit_and-pow : (k a : ℕ) → bit_and a (2 ^ k) ≡ bit a k * 2 ^ k
unfolding bit
bit_and-pow zero a = omega (arith, bit_and_step a 1, bit_and-zero (a / 2))
bit_and-pow (suc k) a =
    let double : 2 ^ suc k ≡ 2 * 2 ^ k = omega (arith, pow-suc 2 k) in
    let half : 2 ^ suc k / 2 ≡ 2 ^ k = omega arith in
    rw (bit_and_step a (2 ^ suc k), half, bit_and-pow k (a / 2))
      (omega (arith, mul-pow-suc (bit (a / 2) k) k))

pub bit-zero : (j : ℕ) → bit 0 j ≡ 0
unfolding bit
bit-zero zero = refl
bit-zero (suc j) = bit-zero j

-- The only bit of `2 ^ k` is the `k`-th.
pub bit-pow_self : (k : ℕ) → bit (2 ^ k) k ≡ 1
unfolding bit
bit-pow_self zero = refl
bit-pow_self (suc k) =
    let half : 2 ^ suc k / 2 ≡ 2 ^ k = omega (arith, pow-suc 2 k) in rw half (bit-pow_self k)

pub bit-pow_ne : (k j : ℕ) → k ≢ j → bit (2 ^ k) j ≡ 0
unfolding bit
bit-pow_ne zero zero ne = absurd (ne refl)
bit-pow_ne zero (suc j) ne = bit-zero j
bit-pow_ne (suc k) zero ne = omega (arith, pow-suc 2 k)
bit-pow_ne (suc k) (suc j) ne =
    let half : 2 ^ suc k / 2 ≡ 2 ^ k = omega (arith, pow-suc 2 k) in
    rw half (bit-pow_ne k j (λ e. ne (ap suc e)))

pub pow-pos : (n : ℕ) → 1 ≤ 2 ^ n
pow-pos n = one-le-pow n 2 (omega arith)

-- `2 ^ n - 1 - x` flips each of the `n` bits of `x`.
bit-complement : (n x j : ℕ) → x < 2 ^ n → j < n → bit (2 ^ n - 1 - x) j ≡ 1 - bit x j
unfolding bit
bit-complement zero x j hx hj = elim hj [ ]
bit-complement (suc n) x zero hx hj = omega (arith, pow-suc 2 n, pow-pos n)
bit-complement (suc n) x (suc j) hx hj =
    let half : (2 ^ suc n - 1 - x) / 2 ≡ 2 ^ n - 1 - x / 2 =
      omega (arith, pow-suc 2 n, pow-pos n) in
    rw half (bit-complement n (x / 2) j (omega (arith, pow-suc 2 n)) (omega arith))

pub bit-not32 : (x j : ℕ) → x < 2 ^ 32 → j < 32 → bit (not32 x) j ≡ 1 - bit x j
bit-not32 x j = bit-complement 32 x j

-- The word of ones has every bit.
pub bit_full : (j : ℕ) → j < 32 → bit 0xffffffff j ≡ 1
bit_full j h = omega (arith, bit-not32 0 j (omega arith) h, bit-zero j)

-- Words with the same bits are equal.
pub bit_ext : (n a b : ℕ) → a < 2 ^ n → b < 2 ^ n → ((j : ℕ) → j < n → bit a j ≡ bit b j) → a ≡ b
unfolding bit
bit_ext zero a b ha hb h = omega arith
bit_ext (suc n) a b ha hb h = omega (
  arith,
  bit_ext n (a / 2) (b / 2) (omega (arith, pow-suc 2 n)) (omega (arith, pow-suc 2 n))
      (λ j p. h (suc j) (omega arith)),
  h 0 (omega arith),
)

pub bit_or-lt : (n a b : ℕ) → a < 2 ^ n → b < 2 ^ n → bit_or a b < 2 ^ n
bit_or-lt zero a b ha hb =
    let za : a ≡ 0 = omega arith in let zb : b ≡ 0 = omega arith in rw (za, zb) (omega arith)
bit_or-lt (suc n) a b ha hb = omega (
  arith,
  pow-suc 2 n,
  bit_or_step a b,
  bit_or-lt n (a / 2) (b / 2) (omega (arith, pow-suc 2 n)) (omega (arith, pow-suc 2 n)),
)

-- `a | r` with `r` in the `k` low bits that `a` leaves free is a sum.
pub bit_or_fields : (k high low : ℕ) → low < 2 ^ k → bit_or (high * 2 ^ k) low ≡ high * 2 ^ k + low
bit_or_fields (suc k) high low small =
    let upper = bit_or_fields k high (low / 2) (omega (arith, pow-suc 2 k)) in
    let shifted = ap (λ t. bit_or t (low / 2)) (half-mul-pow high k) in
    omega
      (arith, pow-suc 2 k, mul-pow-suc high k, shifted, upper, bit_or_step (high * 2 ^ suc k) low)
bit_or_fields zero high low small =
    let none : low ≡ 0 = omega arith in rw (none, bit_or-zero (high * 2 ^ 0)) (omega arith)

-- A mask of `k` ones is the remainder by `2 ^ k`.
pub bit_and_low : (k a : ℕ) → bit_and a (2 ^ k - 1) ≡ a % 2 ^ k
bit_and_low zero a = rw (bit_and-zero a) (omega arith)
bit_and_low (suc k) a =
    let half : (2 ^ suc k - 1) / 2 ≡ 2 ^ k - 1 = omega (arith, pow-suc 2 k, pow-pos k) in
    rw (bit_and_step a (2 ^ suc k - 1), half, bit_and_low k (a / 2))
      (omega (
        arith,
        pow-suc 2 k,
        pow-pos k,
        div-pow-suc a k,
        mul-pow-suc (a / 2 ^ suc k) k,
        mod-eq-sub-div-mul a (2 ^ suc k),
        mod-eq-sub-div-mul (a / 2) (2 ^ k),
        div-mul-le_self (a / 2) (2 ^ k),
        div-mul-le_self a (2 ^ suc k),
        ap (λ (t : ℕ). t * 2 ^ k) (div-pow-suc a k),
      ))

-- A mask with `k` low zeros drops `k` bits.
pub bit_and_high : (k a m : ℕ) → bit_and a (m * 2 ^ k) ≡ bit_and (a / 2 ^ k) m * 2 ^ k
bit_and_high zero a m = (rw (mul-one m, div-one a) (omega arith))
bit_and_high (suc k) a m =
    rw (bit_and_step a (m * 2 ^ suc k), half-mul-pow m k, bit_and_high k (a / 2) m, div-pow-suc a k)
      (omega (arith, mul-pow-suc m k, mul-pow-suc (bit_and (a / 2 ^ suc k) m) k))

-- `x & ~0xfff` clears the offset into the page.
pub bit_and-page_mask : (x : ℕ) → x < 2 ^ 32 → bit_and x (not32 0xfff) ≡ x / 4096 * 4096
bit_and-page_mask x h =
    bit_and_high 12 x (2 ^ 20 - 1) ∙ ap (λ t. t * 4096) (omega (arith, bit_and_low 20 (x / 4096)))

pub div-bit_or : (k a b : ℕ) → bit_or a b / 2 ^ k ≡ bit_or (a / 2 ^ k) (b / 2 ^ k)
div-bit_or zero a b = rw (div-one (bit_or a b), div-one a, div-one b)
div-bit_or (suc k) a b =
    let half : bit_or a b / 2 ≡ bit_or (a / 2) (b / 2) = omega (arith, bit_or_step a b) in
    rw (← div-pow-suc (bit_or a b) k, ← div-pow-suc a k, ← div-pow-suc b k, half)
      (div-bit_or k (a / 2) (b / 2))

-- A multiple of `2 ^ k` has `k` low zeros.
pub bit-mul_pow : (k q j : ℕ) → j < k → bit (q * 2 ^ k) j ≡ 0
unfolding bit
bit-mul_pow zero q j h = elim h [ ]
bit-mul_pow (suc k) q zero h = omega (arith, mul-pow-suc q k)
bit-mul_pow (suc k) q (suc j) h = rw (half-mul-pow q k) (bit-mul_pow k q j (omega arith))

-- `w & (1 << k)` as a test.
pub nonzero-bit_and-pow : (w k : ℕ) → nonzero (bit_and w (2 ^ k)) ≡ nonzero (bit w k)
nonzero-bit_and-pow w k = elim (Bool-cases (nonzero (bit w k))) [
  | inl one ↦ ground (arith, bit_and-pow k w, pow-pos k, bit-le-one w k, is_one)
  | inr nil ↦ ground (arith, bit_and-pow k w)
]
  where
    is_one : nonzero (bit w k) ≡ true → bit w k * 2 ^ k ≡ 2 ^ k
    is_one h = let e : bit w k ≡ 1 = ground (arith, bit-le-one w k) in rw e (omega arith)

pub pow_split : (k n : ℕ) → k ≤ n → 2 ^ (n - k) * 2 ^ k ≡ 2 ^ n
pow_split zero n h = let none : n - 0 ≡ n = omega arith in rw none (mul-one (2 ^ n))
pow_split (suc k) zero h = absurd (omega arith)
pow_split (suc k) (suc n) h =
    let less : suc n - suc k ≡ n - k = omega arith in
    rw less (omega (arith, mul-pow-suc (2 ^ (n - k)) k, pow_split k n (omega arith), pow-suc 2 n))

pub pow-lt : (k : ℕ) → k < 32 → 2 ^ k < 2 ^ 32
pow-lt k h = omega (arith, pow_split k 32 (omega arith), pow_wide)
  where
    pow_wide : 2 * 2 ^ k ≤ 2 ^ (32 - k) * 2 ^ k
    pow_wide =
        let step : 32 - k ≡ suc (31 - k) = omega arith in
        rw step (grind (arith, pow-suc 2 (31 - k), pow-pos (31 - k)))

bit_or_comm : (a b : ℕ) → bit_or a b ≡ bit_or b a
bit_or_comm a b = go (a + b) a b (omega arith) (omega arith)
  where
    go : (n a b : ℕ) → a ≤ n → b ≤ n → bit_or a b ≡ bit_or b a
    go zero a b p q = let za : a ≡ 0 = omega arith in let zb : b ≡ 0 = omega arith in rw (za, zb)
    go (suc n) a b p q =
        omega (
          arith,
          bit_or_step a b,
          bit_or_step b a,
          go n (a / 2) (b / 2) (omega arith) (omega arith),
        )

-- The same with the low bits first.
pub bit_or_fields_low : (k q r : ℕ) → r < 2 ^ k → bit_or r (q * 2 ^ k) ≡ q * 2 ^ k + r
bit_or_fields_low k q r fits = bit_or_comm r (q * 2 ^ k) ∙ bit_or_fields k q r fits
