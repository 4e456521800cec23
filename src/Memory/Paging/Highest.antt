-- ===== src/Memory/Paging/Highest.antt =====
-- `compute_highest_free_address` of paging.c.
use aeon_486_os.Base.{ℕ, zero, suc, ◌+◌, ◌-◌, ◌^◌, ◌≤◌, ◌<◌, List}
use aeon_486_os.Base.{ok, ◌≡◌, ◌⊎◌, inl, inr, refl, arith, ◌∙◌, from_suc, ltb}
use aeon_486_os.Base.{length, get_or, read_lem, bit_and, if◌then◌else◌}
use aeon_486_os.Base.Word.{u32, not32}
use aeon_486_os.Memory.Paging.{compute_highest_free_address, highest_from, kernel_page_tables_len}
use aeon_486_os.Memory.Paging.{page_size}

-- The frame that entry `j` maps.
abbrev pub frame_at : List ℕ → ℕ → ℕ
frame_at table j = bit_and (get_or table j 0) (not32 0xfff)

-- `m` is the largest of `acc` and the frames `i`, …, `i + left - 1`.
record IsHighest (table : List ℕ) (i left acc m : ℕ) : Type 0 where
  above_acc : acc ≤ m
  above : (j : ℕ) → i ≤ j → j < i + left → frame_at table j ≤ m
  reached : (m ≡ acc) ⊎ ((j : ℕ) × (j < i + left) × (m ≡ frame_at table j))

IsHighest-suc :
    (table : List ℕ) (i left acc best m : ℕ)
    → acc ≤ best
    → frame_at table i ≤ best
    → (best ≡ acc) ⊎ (best ≡ frame_at table i)
    → IsHighest table (i + 1) left best m
    → IsHighest table i (suc left) acc m
IsHighest-suc table i left acc best m p q which r = record {
  above_acc = omega (arith, r.above_acc);
  above =
      from_suc (λ j. j < i + suc left → frame_at table j ≤ m) i (λ _. omega (arith, r.above_acc))
        (λ j lo hi. r.above j lo (omega arith));
  reached = elim r.reached [
    | inl e ↦ elim which [ inl old ↦ inl (e ∙ old) | inr new ↦ inr (i, omega arith, e ∙ new) ]
    | inr (j, hi, e) ↦ inr (j, omega arith, e)
  ];
}

highest_from_lem :
    (table : List ℕ) (left i acc : ℕ)
    → i + left ≤ length table
    → (m : ℕ) × (highest_from table left i acc ≡ ok m) × IsHighest table i left acc m
unfolding highest_from
highest_from_lem table zero i acc h = (
  acc,
  refl,
  record { above_acc = omega arith; above = λ j p q. absurd (omega arith); reached = inl refl },
)
highest_from_lem table (suc left) i acc h =
    let f = frame_at table i in
    let best = if ltb f acc then acc else f in
    let (m, runs, r) = highest_from_lem table left (i + 1) best (omega arith) in
    rw (read_lem table i (omega arith)) (
      m,
      runs,
      IsHighest-suc table i left acc best m (ground arith) (ground arith) (ground arith) r,
    )

-- With the kernel's tables and every frame below 2^32 - 4096, `compute_highest_free_address`
-- returns an address at which no frame of the tables lies, nor above it, and no lower address
-- will do: it is one page past a mapped frame, or one page if no frame is mapped.
pub compute_highest_free_address_lem :
    (table : List ℕ)
    → length table ≡ kernel_page_tables_len
    → ((j : ℕ) → frame_at table j < 2 ^ 32 - page_size)
    → (top : ℕ) × (compute_highest_free_address table ≡ ok top)
      × ((j : ℕ) → j < kernel_page_tables_len → frame_at table j + page_size ≤ top)
      × ((top ≡ page_size)
          ⊎ ((j : ℕ) × (j < kernel_page_tables_len) × (top ≡ frame_at table j + page_size)))
unfolding compute_highest_free_address
compute_highest_free_address_lem table len small =
    let (m, runs, r) = highest_from_lem table kernel_page_tables_len 0 0 (omega arith) in
    let word : u32 (m + page_size) ≡ m + page_size = elim r.reached [
      | inl e ↦ omega arith
      | inr (j, hi, e) ↦ omega (arith, small j)
    ] in
    rw (runs, word)
      (
        m + page_size,
        refl,
        (λ j p. omega (arith, r.above j (omega arith) (omega arith))),
        elim r.reached [
          | inl e ↦ inl (omega arith)
          | inr (j, hi, e) ↦ inr (j, omega arith, omega arith)
        ],
      )
