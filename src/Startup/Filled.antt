-- ===== src/Startup/Filled.antt =====
-- Entries of a page table, and the words left alone.
use aeon_486_os.Base.{ℕ, suc, ◌+◌, ◌-◌, ◌*◌, ◌^◌, ◌≤◌, ◌<◌}
use aeon_486_os.Base.{◌≡◌, ◌≢◌, refl, arith, ◌∙◌, from_suc}
use aeon_486_os.Base.Word.{u32, sub32}
use aeon_486_os.Startup.{Words, store_word}

-- `after` has entries with their frames and `flags`, from entry `i` on, `r` of them, less those
-- below entry `first`, and is `before` elsewhere.
pub record IsFilled (before after : Words) (table flags first i r : ℕ) : Type 0 where
  pub entries : (k : ℕ) → i ≤ k → first ≤ k → k < i + r → after (table + k * 4) ≡ k * 4096 + flags
  pub others :
      (x : ℕ) → ((k : ℕ) → i ≤ k → first ≤ k → k < i + r → x ≢ table + k * 4) → after x ≡ before x

pub store_self :
    (words : Words) (address value : ℕ) → store_word words address value address ≡ value
unfolding store_word
store_self words address value = ground arith

pub store_other :
    (words : Words) (address value x : ℕ) → x ≢ address → store_word words address value x ≡ words x
unfolding store_word
store_other words address value x other = ground arith

module _ (before after : Words) (table flags first i : ℕ) where
  pub IsFilled-nil : IsFilled before before table flags first i 0
  IsFilled-nil = record { entries = λ k low from high. absurd (omega arith); others = λ x h. refl }

  -- One entry, and then the rest.
  pub IsFilled-store :
      (r : ℕ)
      → first ≤ i
      → IsFilled
          (store_word before (table + i * 4) (i * 4096 + flags))
          after
          table
          flags
          first
          (i + 1)
          r
      → IsFilled before after table flags first i (suc r)
  IsFilled-store r from rest =
      let here : after (table + i * 4) ≡ i * 4096 + flags =
        rest.others (table + i * 4) (λ k low from' high e. absurd (omega (arith, e)))
        ∙ store_self before (table + i * 4) (i * 4096 + flags) in
      record {
        entries =
            from_suc (λ k. first ≤ k → k < i + suc r → after (table + k * 4) ≡ k * 4096 + flags) i
              (λ f h. here) (λ k low f h. rest.entries k low f (omega arith));
        others = λ x h.
            rest.others x (λ k low f high. h k (omega arith) f (omega arith))
            ∙ store_other before (table + i * 4) (i * 4096 + flags) x
                (h i (omega arith) from (omega arith));
      }

  pub IsFilled-skip :
      (r : ℕ)
      → i < first
      → IsFilled before after table flags first (i + 1) r
      → IsFilled before after table flags first i (suc r)
  IsFilled-skip r ahead rest = record {
    entries = λ k low from high. rest.entries k (omega arith) from (omega arith);
    others = λ x h. rest.others x (λ k low from high. h k (omega arith) from (omega arith));
  }

-- A word of the table and the next one.
pub next_address :
    (table i : ℕ) → table + i * 4 + 4 < 2 ^ 32 → u32 (table + i * 4 + 4) ≡ table + (i + 1) * 4
next_address table i low = omega arith

pub next_frame : (i : ℕ) → i * 4096 + 4096 < 2 ^ 32 → u32 (i * 4096 + 4096) ≡ (i + 1) * 4096
next_frame i low = omega arith

-- The counter, from 1 to 2^32, after one `loop`.
pub counter_lem : (c : ℕ) → 1 ≤ c → c ≤ 2 ^ 32 → sub32 (u32 c) 1 ≡ u32 (c - 1)
counter_lem c one top = omega arith
