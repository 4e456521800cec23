-- ===== src/Startup/Counter.antt =====
-- The counter of the loops of kernel/boot.s, which nothing sets.
use aeon_486_os.Base.{ℕ, ◌+◌, ◌-◌, ◌/◌, ◌^◌, ◌≤◌, ◌<◌, min}
use aeon_486_os.Base.{◌≡◌, ◌⊎◌, arith, if◌then◌else◌, ◌==◌}
use aeon_486_os.Base.Word.{u32, sub32}
use aeon_486_os.Startup.{Image}

-- The rounds of `loop` out of `n` that a counter allows. A counter of 0 allows 2^32.
abbrev pub rounds : (ecx n : ℕ) → ℕ
rounds ecx n = if ecx == 0 then n else min ecx n

-- The pages up to the end of the kernel.
abbrev pub pages_of : Image → ℕ
pages_of image = (image.kernel_end + 4095) / 4096

-- How many entries the two loops come to, from the counter at `_start`.
abbrev pub identity_pages : (ecx : ℕ) → ℕ
identity_pages ecx = rounds ecx 1024

abbrev pub kernel_pages : Image → (ecx : ℕ) → ℕ
kernel_pages image ecx = rounds (sub32 ecx (identity_pages ecx)) (pages_of image)

-- A counter as a number of rounds, from 1 to 2^32.
abbrev pub count : ℕ → ℕ
count ecx = if ecx == 0 then 2 ^ 32 else ecx

module _ (ecx n : ℕ) (word : ecx < 2 ^ 32) (few : n < 2 ^ 32) where
  pub count_word : u32 (count ecx) ≡ ecx
  count_word = ground arith

  pub count-pos : 1 ≤ count ecx
  count-pos = ground arith

  pub count-le : count ecx ≤ 2 ^ 32
  count-le = ground arith

  pub rounds-le : rounds ecx n ≤ n
  rounds-le = ground arith

  pub rounds-count : rounds ecx n ≤ count ecx
  rounds-count = ground arith

  pub rounds_stop : (n ≡ rounds ecx n) ⊎ (count ecx ≡ rounds ecx n)
  rounds_stop = ground arith

  pub count_left : u32 (count ecx - rounds ecx n) ≡ sub32 ecx (rounds ecx n)
  count_left = ground arith
