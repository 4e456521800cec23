-- ===== src/Klibc/Memory/Copy.antt =====
-- What `memcpy` leaves in memory.
use aeon_486_os.Base.{ℕ, zero, suc, ◌+◌, ◌*◌, ◌/◌, ◌≤◌, ◌<◌, ◌≡◌, ◌⊎◌, inl, inr}
use aeon_486_os.Base.{refl, arith, ◌∙◌, sym, ◌≢◌, subst, bit_and, nonzero, Bool-cases}
use aeon_486_os.Base.Word.Masks.{bit_and_low}
use aeon_486_os.Klibc.Memory.{Memory, store, copy_pairs, memcpy}

-- `after` has at `dest` the `n` bytes that `before` has at `src`, and else the bytes of `before`.
pub record IsCopied (before after : Memory) (dest src n : ℕ) : Type 0 where
  pub inside : (j : ℕ) → j < n → after (dest + j) ≡ before (src + j)
  pub outside : (x : ℕ) → (x < dest) ⊎ (dest + n ≤ x) → after x ≡ before x

-- A copy that goes forward reads nothing that it has written, if the target does not lie inside
-- the source behind its start.
abbrev pub IsForward : ℕ → ℕ → ℕ → Type 0
IsForward dest src n = (dest ≤ src) ⊎ (src + n ≤ dest)

store_self : (mem : Memory) (p v : ℕ) → store mem p v p ≡ v
unfolding store
store_self mem p v = ground arith

store_ne : (mem : Memory) (p v x : ℕ) → p ≢ x → store mem p v x ≡ mem x
unfolding store
store_ne mem p v x ne = ground arith

-- One byte in front.
IsCopied-suc :
    (before after : Memory) (dest src n : ℕ)
    → IsForward dest src (suc n)
    → IsCopied (store before dest (before src)) after (dest + 1) (src + 1) n
    → IsCopied before after dest src (suc n)
IsCopied-suc before after dest src n forward c = record { inside = within; outside = beyond }
  where
    within : (j : ℕ) → j < suc n → after (dest + j) ≡ before (src + j)
    within zero p =
        let d : dest + 0 ≡ dest = omega arith in
        let s : src + 0 ≡ src = omega arith in
        rw (d, s) (c.outside dest (omega arith) ∙ store_self before dest (before src))
    within (suc j) p =
        let d : dest + suc j ≡ dest + 1 + j = omega arith in
        let s : src + suc j ≡ src + 1 + j = omega arith in
        rw (d, s)
          (c.inside j (omega arith) ∙ store_ne before dest (before src) (src + 1 + j) (omega arith))

    beyond : (x : ℕ) → (x < dest) ⊎ (dest + suc n ≤ x) → after x ≡ before x
    beyond x p = c.outside x (omega arith) ∙ store_ne before dest (before src) x (omega arith)

IsCopied-nil : (mem : Memory) (dest src : ℕ) → IsCopied mem mem dest src 0
IsCopied-nil mem dest src = record { inside = λ j p. elim p [ ]; outside = λ x p. refl }

copy_pairs-IsCopied :
    (mem : Memory) (dest src count : ℕ)
    → IsForward dest src (count * 2)
    → IsCopied mem (copy_pairs mem dest src count) dest src (count * 2)
unfolding copy_pairs
copy_pairs-IsCopied mem dest src zero forward = IsCopied-nil mem dest src
copy_pairs-IsCopied mem dest src (suc count) forward =
    let first = store mem dest (mem src) in
    let second = store first (dest + 1) (first (src + 1)) in
    let d : dest + 2 ≡ dest + 1 + 1 = omega arith in
    let s : src + 2 ≡ src + 1 + 1 = omega arith in
    let n : suc count * 2 ≡ suc (suc (count * 2)) = omega arith in
    let rest = copy_pairs-IsCopied second (dest + 2) (src + 2) count (omega arith) in
    let after = copy_pairs second (dest + 2) (src + 2) count in
    rw n (
      IsCopied-suc mem after dest src (suc (count * 2)) (omega arith) (
        IsCopied-suc first after (dest + 1) (src + 1) (count * 2) (omega arith) (
          subst (λ x. IsCopied second after x (src + 1 + 1) (count * 2)) d
            (subst (λ y. IsCopied second after (dest + 2) y (count * 2)) s rest))))

-- `memcpy` copies `count` bytes and changes no other, if the target does not begin inside the source
-- behind its start; where it begins before the source the two may overlap.
pub memcpy-IsCopied :
    (mem : Memory) (dest src count : ℕ)
    → IsForward dest src count
    → IsCopied mem (memcpy mem dest src count) dest src count
unfolding memcpy
memcpy-IsCopied mem dest src count forward = elim (Bool-cases (nonzero (bit_and count 1))) [
  | inl odd ↦
      let n : count ≡ suc (count / 2 * 2) = ground (arith, bit_and_low 1 count) in
      rw odd (
        subst
          (IsCopied mem (copy_pairs (store mem dest (mem src)) (dest + 1) (src + 1) (count / 2))
            dest src)
          (sym n)
          (IsCopied-suc mem _ dest src (count / 2 * 2) (omega arith) (
            copy_pairs-IsCopied (store mem dest (mem src)) (dest + 1) (src + 1) (count / 2)
              (omega arith))))
  | inr even ↦
      let n : count ≡ count / 2 * 2 = ground (arith, bit_and_low 1 count) in
      rw even (
        subst (IsCopied mem (copy_pairs mem dest src (count / 2)) dest src) (sym n)
          (copy_pairs-IsCopied mem dest src (count / 2) (omega arith)))
]
