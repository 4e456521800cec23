-- ===== src/Base/Word/Step.antt =====
-- One digit of `bit_and` and `bit_or`. The library defines both by a walk over the digits that has
-- a budget of rounds; a larger budget gives the same number.
use Prim.Native.Nat.{digits, bitwise, bit_and-bitwise, bit_or-bitwise, max, min, bit_or, bit_and}
use Prim.Native.Nat.{◌≤◌, ◌%◌, ◌/◌, ◌*◌, ◌+◌, suc, zero, ℕ}
use native.Mathlib.Decide.{ℕ_discrete}
use native.Mathlib.Omega.{arith}
use mathlib.Core.Path.{ap, refl, sym, ◌∙◌, ◌≡◌}

module _ (tail : ℕ → ℕ) (join : ℕ → ℕ → ℕ) where
  abbrev walk : ℕ → ℕ → ℕ → ℕ
  walk = digits tail join

  one_more : (budget x y : ℕ) → x ≤ budget → walk (suc budget) x y ≡ walk budget x y
  one_more budget zero y fits = stop budget
    where
      stop : (c : ℕ) → walk (suc c) 0 y ≡ walk c 0 y
      stop zero = refl
      stop (suc c) = refl
  one_more (suc budget) (suc x) y fits =
      let upper = one_more budget (suc x / 2) (y / 2) (omega arith) in
      ap (λ high. high * 2 + join (suc x % 2) (y % 2)) upper
  one_more zero (suc x) y fits = elim fits [ ]

  surplus : (large small x y : ℕ) → x ≤ small → small ≤ large → walk large x y ≡ walk small x y
  surplus large small x y fits order = elim (ℕ_discrete large small) [
    | yes same ↦ ap (λ c. walk c x y) same
    | no apart ↦ below large small x y fits (omega arith)
  ]
    where
      below :
          (large small x y : ℕ) → x ≤ small → suc small ≤ large → walk large x y ≡ walk small x y
      below zero small x y fits order = elim order [ ]
      below (suc large) small x y fits order =
          one_more large x y (omega arith) ∙ elim (ℕ_discrete large small) [
            | yes same ↦ ap (λ c. walk c x y) same
            | no apart ↦ below large small x y fits (omega arith)
          ]

  top_digit :
      (x y : ℕ)
      → bitwise tail join (suc x) y
        ≡ bitwise tail join (suc x / 2) (y / 2) * 2 + join (suc x % 2) (y % 2)
  top_digit x y =
      ap (λ high. high * 2 + join (suc x % 2) (y % 2))
        (surplus x (suc x / 2) (suc x / 2) (y / 2) (omega arith) (omega arith))

pub bit_or_step : (x y : ℕ) → bit_or x y ≡ bit_or (x / 2) (y / 2) * 2 + max (x % 2) (y % 2)
bit_or_step (suc x) y =
    bit_or-bitwise (suc x) y
    ∙ top_digit (λ rest. rest) max x y
    ∙ ap (λ high. high * 2 + max (suc x % 2) (y % 2)) (sym (bit_or-bitwise (suc x / 2) (y / 2)))
bit_or_step zero y = omega (arith, bit_or-bitwise 0 y, bit_or-bitwise 0 (y / 2))

pub bit_and_step : (x y : ℕ) → bit_and x y ≡ bit_and (x / 2) (y / 2) * 2 + min (x % 2) (y % 2)
bit_and_step (suc x) y =
    bit_and-bitwise (suc x) y
    ∙ top_digit (λ rest. 0) min x y
    ∙ ap (λ high. high * 2 + min (suc x % 2) (y % 2)) (sym (bit_and-bitwise (suc x / 2) (y / 2)))
bit_and_step zero y = omega (arith, bit_and-bitwise 0 y, bit_and-bitwise 0 (y / 2))
