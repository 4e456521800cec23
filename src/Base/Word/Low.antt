-- ===== src/Base/Word/Low.antt =====
-- The low bits of a word.
use Prim.Native.Nat.{ℕ, zero, suc, ◌+◌, ◌-◌, ◌*◌, ◌/◌, ◌%◌, ◌^◌, ◌<◌, bit_and, bit_or}
use mathlib.Core.Path.{◌≡◌, ap, refl}
use native.Mathlib.Nat.{pow-suc}
use native.Mathlib.Omega.{arith}
use aeon_486_os.Base.Word.Step.{bit_and_step, bit_or_step}
use aeon_486_os.Base.Word.Masks.{bit_and_low, pow-pos, by_halves}

mod-pow-suc : (n k : ℕ) → n % 2 ^ suc k ≡ n / 2 % 2 ^ k * 2 + n % 2
mod-pow-suc n k =
    let half : (2 ^ suc k - 1) / 2 ≡ 2 ^ k - 1 = omega (arith, pow-suc 2 k, pow-pos k) in
    let ones = ap (λ m. bit_and (n / 2) m) half in
    omega (
      arith,
      pow-suc 2 k,
      pow-pos k,
      bit_and_low (suc k) n,
      bit_and_step n (2 ^ suc k - 1),
      ones,
      bit_and_low k (n / 2),
    )

-- A number shifted up by `k` bits leaves the low `k` bits of the other.
pub bit_or-low : (k a b : ℕ) → bit_or a (b * 2 ^ k) % 2 ^ k ≡ a % 2 ^ k
bit_or-low zero a b = omega arith
bit_or-low (suc k) a b =
    let double : b * 2 ^ suc k ≡ 2 * (b * 2 ^ k) = grind (arith, pow-suc 2 k) in
    let half : b * 2 ^ suc k / 2 ≡ b * 2 ^ k = omega arith in
    let upper = ap (λ t. bit_or (a / 2) t) half in
    let step = bit_or_step a (b * 2 ^ suc k) in
    let bits : bit_or a (b * 2 ^ suc k) / 2 ≡ bit_or (a / 2) (b * 2 ^ k) = omega arith in
    let rest = ap (λ t. t % 2 ^ k) bits in
    omega (
      arith,
      mod-pow-suc (bit_or a (b * 2 ^ suc k)) k,
      mod-pow-suc a k,
      rest,
      bit_or-low k (a / 2) b,
    )

zero_bit_and : (b : ℕ) → bit_and 0 b ≡ 0
zero_bit_and = by_halves (λ x. bit_and 0 x ≡ 0) refl λ x half. omega (arith, bit_and_step 0 (suc x))

pub bit_and-lt : (n a b : ℕ) → a < 2 ^ n → bit_and a b < 2 ^ n
bit_and-lt zero a b ha = let za : a ≡ 0 = omega arith in rw za (omega (arith, zero_bit_and b))
bit_and-lt (suc n) a b ha = omega (
  arith,
  pow-suc 2 n,
  bit_and_step a b,
  bit_and-lt n (a / 2) (b / 2) (omega (arith, pow-suc 2 n)),
)
