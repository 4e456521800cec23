-- ===== src/Startup/IdentityLoop.antt =====
-- What the first loop of kernel/boot.s writes, for any value of the counter.
use aeon_486_os.Base.{ℕ, zero, suc, ◌+◌, ◌-◌, ◌*◌, ◌^◌, ◌≤◌, ◌<◌}
use aeon_486_os.Base.{◌≡◌, ◌⊎◌, refl, arith, ◌∙◌, ap, true, false}
use aeon_486_os.Base.{Outcome, ok, ◌==◌, ℕ_discrete}
use aeon_486_os.Base.Word.{u32, sub32}
use aeon_486_os.Base.Word.Masks.{bit_or_fields}
use aeon_486_os.Startup.{Words, store_word, jl, identity_from}
use aeon_486_os.Startup.Filled.{
  IsFilled, IsFilled-nil, IsFilled-store, next_address, next_frame, counter_lem,
}

identity_from-end :
    (fuel table ecx : ℕ) (words : Words)
    → table + 4096 < 2 ^ 31
    → identity_from (suc fuel) table (table + 1024 * 4) (1024 * 4096) ecx words ≡ ok (ecx, words)
unfolding identity_from
identity_from-end fuel table ecx words low =
    let past : jl (table + 1024 * 4) (table + 4096) ≡ false = ground arith in rw past refl

-- The round at entry `i`, when the counter is used up by it and when it is not.
module _ (fuel table i : ℕ) (before : Words) (inside : i < 1024) (low : table + 4096 < 2 ^ 31) where
  inside_table : jl (table + i * 4) (table + 4096) ≡ true
  inside_table = ground arith

  abbrev written : Words
  written = store_word before (table + i * 4) (i * 4096 + 3)

  identity_from-last :
      identity_from (suc fuel) table (table + i * 4) (i * 4096) 1 before ≡ ok (0, written)
  unfolding identity_from
  identity_from-last = rw (inside_table, bit_or_fields 12 i 3 (omega arith)) refl

  identity_from-next :
      (c : ℕ) (result : Outcome (ℕ × Words))
      → 2 ≤ c
      → c ≤ 2 ^ 32
      → identity_from fuel table (table + (i + 1) * 4) ((i + 1) * 4096) (u32 (c - 1)) written
        ≡ result
      → identity_from (suc fuel) table (table + i * 4) (i * 4096) (u32 c) before ≡ result
  unfolding identity_from
  identity_from-next c result two top runs =
      let more : (sub32 (u32 c) 1 == 0) ≡ false = ground arith in
      rw
        (
          inside_table,
          more,
          bit_or_fields 12 i 3 (omega arith),
          next_address table i (omega arith),
          next_frame i (omega arith),
          counter_lem c (omega arith) top,
        )
        runs

-- The identity map from entry `i` on, with `n` entries to go, of which the counter `c` lets `r`.
pub identity_from_lem :
    (r n fuel i c table : ℕ) (before : Words)
    → i + n ≡ 1024
    → r ≤ n
    → r ≤ c
    → 1 ≤ c
    → c ≤ 2 ^ 32
    → (n ≡ r) ⊎ (c ≡ r)
    → n < fuel
    → table + 4096 < 2 ^ 31
    → (after : Words) × (identity_from fuel table (table + i * 4) (i * 4096) (u32 c) before
        ≡ ok (u32 (c - r), after))
      × IsFilled before after table 3 0 i r
identity_from_lem r n zero i c table before total few count one top stops enough low =
    absurd (omega arith)
identity_from_lem zero n (suc fuel) i c table before total few count one top stops enough low =
    let at_end : i ≡ 1024 = omega arith in
    let kept : c - 0 ≡ c = omega arith in
    (
      before,
      rw (at_end, kept) (identity_from-end fuel table (u32 c) before low),
      IsFilled-nil before before table 3 0 i,
    )
identity_from_lem (suc r) zero (suc fuel) i c table before total few count one top stops enough
      low =
    absurd (omega arith)
identity_from_lem (suc r) (suc n) (suc fuel) i c table before total few count one top stops enough
      low =
    let words = store_word before (table + i * 4) (i * 4096 + 3) in
    elim (ℕ_discrete c 1) [
      | yes last ↦
          let none : r ≡ 0 = omega arith in
          (
            words,
            rw (last, none) (identity_from-last fuel table i before (omega arith) low),
            rw none (
                IsFilled-store before words table 3 0 i 0 (omega arith)
                  (IsFilled-nil words words table 3 0 (i + 1))),
          )
      | no more ↦
          let (after, runs, filled) =
            identity_from_lem r n fuel (i + 1) (c - 1) table words (omega arith) (omega arith)
              (omega arith) (omega arith) (omega arith) (omega arith) (omega arith) low in
          let rounds : c - 1 - r ≡ c - suc r = omega arith in
          (
            after,
            identity_from-next fuel table i before (omega arith) low c (ok (u32 (c - suc r), after))
                (omega arith) top (runs ∙ ap (λ n. ok (u32 n, after)) rounds),
            IsFilled-store before after table 3 0 i r (omega arith) filled,
          )
    ]
