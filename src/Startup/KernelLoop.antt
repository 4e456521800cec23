-- ===== src/Startup/KernelLoop.antt =====
-- What the second loop of kernel/boot.s writes, for any value of the counter.
use aeon_486_os.Base.{ℕ, zero, suc, ◌+◌, ◌-◌, ◌*◌, ◌^◌, ◌≤◌, ◌<◌}
use aeon_486_os.Base.{◌≡◌, ◌⊎◌, inl, inr, refl, arith, true, false}
use aeon_486_os.Base.{Outcome, ok, ltb, ◌==◌, if◌then◌else◌, Bool-cases, ℕ_discrete}
use aeon_486_os.Base.Word.{u32, sub32}
use aeon_486_os.Base.Word.Masks.{bit_or_fields}
use aeon_486_os.Startup.{Words, store_word, jl, kernel_from, kernel_start}
use aeon_486_os.Startup.Filled.{
  IsFilled, IsFilled-nil, IsFilled-store, IsFilled-skip, next_address, next_frame, counter_lem,
}

-- The round of the kernel map at entry `i`.
module _ (fuel kernel_end table i : ℕ) (before : Words) (low : kernel_end + 4096 < 2 ^ 31) where
  kernel_from-end :
      (ecx : ℕ)
      → kernel_start ≤ i * 4096
      → kernel_end ≤ i * 4096
      → i * 4096 < 2 ^ 31
      → kernel_from (suc fuel) kernel_end (table + i * 4) (i * 4096) ecx before ≡ ok before
  unfolding kernel_from
  kernel_from-end ecx above past small =
      let above' : jl (i * 4096) kernel_start ≡ false = ground arith in
      let past' : jl (i * 4096) kernel_end ≡ false = ground arith in rw (above', past') refl

  -- The words after the round.
  abbrev kernel_round : Words
  kernel_round = if ltb i 256 then before else store_word before (table + i * 4) (i * 4096 + 0x803)

  kernel_from-last :
      i * 4096 < kernel_end
      → kernel_from (suc fuel) kernel_end (table + i * 4) (i * 4096) 1 before ≡ ok kernel_round
  unfolding kernel_from
  kernel_from-last inside =
      let inside' : jl (i * 4096) kernel_end ≡ true = ground arith in
      elim (Bool-cases (ltb i 256)) [
        | inl e ↦ let below : jl (i * 4096) kernel_start ≡ true = ground arith in rw (below, e) refl
        | inr e ↦
            let above : jl (i * 4096) kernel_start ≡ false = ground arith in
            rw (above, e, inside', bit_or_fields 12 i 0x803 (omega arith)) refl
      ]

  kernel_from-next :
      (c : ℕ) (result : Outcome Words)
      → i * 4096 < kernel_end
      → table + i * 4 + 4 < 2 ^ 32
      → 2 ≤ c
      → c ≤ 2 ^ 32
      → kernel_from fuel kernel_end
          (table + (i + 1) * 4)
          ((i + 1) * 4096)
          (u32 (c - 1))
          kernel_round
        ≡ result
      → kernel_from (suc fuel) kernel_end (table + i * 4) (i * 4096) (u32 c) before ≡ result
  unfolding kernel_from
  kernel_from-next c result inside room two top runs =
      let more : (sub32 (u32 c) 1 == 0) ≡ false = ground arith in
      let inside' : jl (i * 4096) kernel_end ≡ true = ground arith in
      let address = next_address table i room in
      let frame = next_frame i (omega arith) in
      let left = counter_lem c (omega arith) top in
      elim (Bool-cases (ltb i 256)) [
        | inl e ↦
            let below : jl (i * 4096) kernel_start ≡ true = ground arith in
            rw (below, more, address, frame, left) (rw e at runs)
        | inr e ↦
            let above : jl (i * 4096) kernel_start ≡ false = ground arith in
            let word = bit_or_fields 12 i 0x803 (omega arith) in
            rw (above, inside', more, word, address, frame, left) (rw e at runs)
      ]

  IsFilled-round :
      (after : Words) (r : ℕ)
      → IsFilled kernel_round after table 0x803 256 (i + 1) r
      → IsFilled before after table 0x803 256 i (suc r)
  IsFilled-round after r = elim (Bool-cases (ltb i 256)) [
    | inl e ↦ rw e (IsFilled-skip before after table 0x803 256 i r (ground arith))
    | inr e ↦ rw e (IsFilled-store before after table 0x803 256 i r (ground arith))
  ]

-- The kernel map from entry `i` on, with `n` pages of the kernel to go, of which the counter lets `r`.
pub kernel_from_lem :
    (r n fuel i c kernel_end table : ℕ) (before : Words)
    → kernel_start < kernel_end
    → kernel_end ≤ (i + n) * 4096
    → (i + n) * 4096 < kernel_end + 4096
    → kernel_end + 8192 < 2 ^ 31
    → r ≤ n
    → r ≤ c
    → 1 ≤ c
    → c ≤ 2 ^ 32
    → (n ≡ r) ⊎ (c ≡ r)
    → n < fuel
    → table + (i + n) * 4 + 4 < 2 ^ 32
    → (after : Words) × (kernel_from fuel kernel_end (table + i * 4) (i * 4096) (u32 c) before
        ≡ ok after)
      × IsFilled before after table 0x803 256 i r
kernel_from_lem r n zero i c kernel_end table before above end end' low few count one top stops
      enough room =
    absurd (omega arith)
kernel_from_lem zero n (suc fuel) i c kernel_end table before above end end' low few count one top
      stops enough room =
    let all : n ≡ 0 = omega arith in
    (
      before,
      kernel_from-end fuel kernel_end table i before (omega arith) (u32 c) (omega arith)
          (omega arith) (omega arith),
      IsFilled-nil before before table 0x803 256 i,
    )
kernel_from_lem (suc r) zero (suc fuel) i c kernel_end table before above end end' low few count one
      top stops enough room =
    absurd (omega arith)
kernel_from_lem (suc r) (suc n) (suc fuel) i c kernel_end table before above end end' low few count
      one top stops enough room =
    let words = kernel_round fuel kernel_end table i before (omega arith) in
    let small : kernel_end + 4096 < 2 ^ 31 = omega arith in
    elim (ℕ_discrete c 1) [
      | yes last ↦
          let none : r ≡ 0 = omega arith in
          (
            words,
            rw last (kernel_from-last fuel kernel_end table i before small (omega arith)),
            rw none (
                IsFilled-round fuel kernel_end table i before small words 0
                  (IsFilled-nil words words table 0x803 256 (i + 1))),
          )
      | no more ↦
          let (after, runs, filled) =
            kernel_from_lem r n fuel (i + 1) (c - 1) kernel_end table words above (omega arith)
              (omega arith) low (omega arith) (omega arith) (omega arith) (omega arith)
              (omega arith) (omega arith) (omega arith) in
          (
            after,
            kernel_from-next fuel kernel_end table i before small c (ok after) (omega arith)
                (omega arith) (omega arith) top runs,
            IsFilled-round fuel kernel_end table i before small after r filled,
          )
    ]
