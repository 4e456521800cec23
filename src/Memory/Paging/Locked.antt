-- ===== src/Memory/Paging/Locked.antt =====
-- Locked entries of the kernel's tables under `page` and `unpage`, and the fuel of `unpage`.
use aeon_486_os.Base.{ℕ, zero, suc, ◌+◌, ◌≤◌, ◌<◌, List, Bool, true, false, subst}
use aeon_486_os.Base.{ok, panic, fault, unpage_locked, ◌≡◌, ◌≢◌, inl, inr, refl, arith, ◌∙◌, sym}
use aeon_486_os.Base.{
  length, get_or, set, read_lem, write_lem, read-fault, bit_and, nonzero, Bool-cases,
}
use aeon_486_os.Base.{length-set, get_or-set_ne, dec_lt, Outcome, leb}
use aeon_486_os.Base.Word.{u32}
use aeon_486_os.Memory.Paging.{unpage, unpage_from, ptf_aeon_locked, ptf_aeon_end_of_block}
use aeon_486_os.Memory.Paging.{page_dir_index, kernel_index}

abbrev pub IsLockedAt : List ℕ → ℕ → Type 0
IsLockedAt table j = nonzero (bit_and (get_or table j 0) ptf_aeon_locked) ≡ true

-- One round on an entry that is not locked.
module _ (fuel : ℕ) (table : List ℕ) (i count : ℕ) (inside : i < length table) where
  unpage_from-locked :
      IsLockedAt table i → unpage_from (suc fuel) table i count ≡ panic unpage_locked
  unfolding unpage_from
  unpage_from-locked locked = rw (read_lem table i inside, locked)

  unpage_from-last :
      nonzero (bit_and (get_or table i 0) ptf_aeon_locked) ≡ false
      → nonzero (bit_and (get_or table i 0) ptf_aeon_end_of_block) ≡ true
      → unpage_from (suc fuel) table i count ≡ ok (u32 (count + 1), set table i 0)
  unfolding unpage_from
  unpage_from-last free last = rw (read_lem table i inside, free, write_lem table i 0 inside, last)

  unpage_from-more :
      nonzero (bit_and (get_or table i 0) ptf_aeon_locked) ≡ false
      → nonzero (bit_and (get_or table i 0) ptf_aeon_end_of_block) ≡ false
      → unpage_from (suc fuel) table i count
        ≡ unpage_from fuel (set table i 0) (i + 1) (u32 (count + 1))
  unfolding unpage_from
  unpage_from-more free more = rw (read_lem table i inside, free, write_lem table i 0 inside, more)

unpage_from-behind :
    (fuel : ℕ) (table : List ℕ) (i count : ℕ)
    → length table ≤ i
    → unpage_from fuel table i count ≡ fault
unfolding unpage_from
unpage_from-behind zero table i count h = refl
unpage_from-behind (suc fuel) table i count h = rw (read-fault table i (omega arith))

-- Fuel past the end of the table changes nothing.
pub unpage_from_fuel :
    (fuel : ℕ) (table : List ℕ) (i count : ℕ)
    → length table < i + fuel
    → unpage_from (suc fuel) table i count ≡ unpage_from fuel table i count
unpage_from_fuel zero table i count h =
    unpage_from-behind 1 table i count (omega arith)
    ∙ sym (unpage_from-behind 0 table i count (omega arith))
unpage_from_fuel (suc fuel) table i count h = elim (dec_lt i (length table)) [
  | no p ↦
      unpage_from-behind (suc (suc fuel)) table i count (omega arith)
      ∙ sym (unpage_from-behind (suc fuel) table i count (omega arith))
  | yes p ↦ elim (Bool-cases (nonzero (bit_and (get_or table i 0) ptf_aeon_locked))) [
    | inl locked ↦
        unpage_from-locked (suc fuel) table i count p locked
        ∙ sym (unpage_from-locked fuel table i count p locked)
    | inr free ↦ elim (Bool-cases (nonzero (bit_and (get_or table i 0) ptf_aeon_end_of_block))) [
      | inl last ↦
          unpage_from-last (suc fuel) table i count p free last
          ∙ sym (unpage_from-last fuel table i count p free last)
      | inr more ↦
          unpage_from-more (suc fuel) table i count p free more
          ∙ unpage_from_fuel fuel (set table i 0) (i + 1) (u32 (count + 1))
              (rw length-set (omega arith))
          ∙ sym (unpage_from-more fuel table i count p free more)
    ]
  ]
]

clash : {b : Bool} → b ≡ true → b ≡ false → ⊥
clash t f = cc

unpage_from-empty : (table : List ℕ) (i count : ℕ) → unpage_from 0 table i count ≡ fault
unfolding unpage_from
unpage_from-empty table i count = refl

-- The loop never returns with a locked entry changed.
unpage_from-keeps :
    (fuel : ℕ) (table : List ℕ) (i count : ℕ) {n : ℕ} {after : List ℕ}
    → unpage_from fuel table i count ≡ ok (n, after)
    → (j : ℕ) → IsLockedAt table j
    → get_or after j 0 ≡ get_or table j 0
unpage_from-keeps zero table i count {n} {after} returned j locked =
    cc (unpage_from-empty table i count)
unpage_from-keeps (suc fuel) table i count {n} {after} returned j locked =
    elim (dec_lt i (length table)) [
      | no p ↦ cc (unpage_from-behind (suc fuel) table i count (omega arith))
      | yes p ↦ elim (Bool-cases (nonzero (bit_and (get_or table i 0) ptf_aeon_locked))) [
        | inl shut ↦ cc (unpage_from-locked fuel table i count p shut)
        | inr free ↦
            let other : i ≢ j = λ e. clash (subst (λ k. IsLockedAt table k) (sym e) locked) free in
            let same : get_or (set table i 0) j 0 ≡ get_or table j 0 =
              get_or-set_ne table i j 0 0 other in
            elim (Bool-cases (nonzero (bit_and (get_or table i 0) ptf_aeon_end_of_block))) [
              | inl last ↦
                  let written : after ≡ set table i 0 =
                    cc (unpage_from-last fuel table i count p free last) in
                  rw written same
              | inr more ↦
                  unpage_from-keeps fuel (set table i 0) (i + 1) (u32 (count + 1))
                    (sym (unpage_from-more fuel table i count p free more) ∙ returned) j
                    (rw same locked)
                  ∙ same
            ]
      ]
    ]

-- Whatever address `unpage` is given, if it returns then each locked entry is as it was.
pub unpage_keeps_locked :
    (table : List ℕ) (va : ℕ) {n : ℕ} {after : List ℕ} (j : ℕ)
    → IsLockedAt table j
    → unpage table va ≡ ok (n, after)
    → get_or after j 0 ≡ get_or table j 0
unfolding unpage
unpage_keeps_locked table va {n} {after} j locked returned =
    elim (Bool-cases (leb 768 (page_dir_index va))) [
      | inl kernel ↦
          unpage_from-keeps (suc (length table)) table (kernel_index va) 0 (rw kernel at returned) j
            locked
      | inr user ↦
          let faulted : ◌≡◌ {A = Outcome (ℕ × List ℕ)} fault (ok (n, after)) =
            rw user at returned in
          cc
    ]
