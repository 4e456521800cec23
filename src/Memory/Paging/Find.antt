-- ===== src/Memory/Paging/Find.antt =====
-- The search of paging.c for unused entries in a row.
use aeon_486_os.Base.{
  ℕ, zero, suc, ◌+◌, ◌-◌, ◌%◌, ◌^◌, ◌≤◌, ◌<◌, List, Bool, true, false, not, ◌&&◌,
}
use aeon_486_os.Base.{
  ok, ◌≡◌, inl, inr, refl, ap, ◌∙◌, arith, length, get_or, Bool-cases, leb, from_suc, read_lem,
}
use aeon_486_os.Memory.Paging.{in_use, run_is_free, find_from, find_free_blocks_offset}
use aeon_486_os.Memory.Paging.{out_of_free_blocks}

-- The entries `i`, …, `i + n - 1` are neither present nor locked.
abbrev pub IsFreeRun : List ℕ → ℕ → ℕ → Type 0
IsFreeRun table n i = (k : ℕ) → k < n → in_use (get_or table (i + k) 0) ≡ false

-- The same as a test.
free_run : List ℕ → ℕ → ℕ → Bool
free_run table zero i = true
free_run table (suc n) i = not (in_use (get_or table i 0)) && free_run table n (i + 1)

free_run-IsFreeRun : (table : List ℕ) (n i : ℕ) → free_run table n i ≡ true → IsFreeRun table n i
unfolding free_run
free_run-IsFreeRun table zero i h k p = elim p [ ]
free_run-IsFreeRun table (suc n) i h zero p = let e : i + 0 ≡ i = omega arith in rw e (ground arith)
free_run-IsFreeRun table (suc n) i h (suc k) p =
    let e : i + suc k ≡ i + 1 + k = omega arith in
    rw e (free_run-IsFreeRun table n (i + 1) (ground arith) k (omega arith))

IsFreeRun-free_run : (table : List ℕ) (n i : ℕ) → IsFreeRun table n i → free_run table n i ≡ true
unfolding free_run
IsFreeRun-free_run table zero i h = refl
IsFreeRun-free_run table (suc n) i h =
    let first : in_use (get_or table i 0) ≡ false =
      (let e : i ≡ i + 0 = omega arith in rw e (h 0 (omega arith))) in
    rw (first, IsFreeRun-free_run table n (i + 1) later)
  where
    later : IsFreeRun table n (i + 1)
    later k p = let e : i + 1 + k ≡ i + suc k = omega arith in rw e (h (suc k) (omega arith))

-- The inner loop makes the test.
run_is_free_lem :
    (table : List ℕ) (i left j : ℕ)
    → i + j + left ≤ length table
    → length table < 2 ^ 32
    → run_is_free table i left j ≡ ok (free_run table left (i + j))
unfolding run_is_free free_run
run_is_free_lem table i zero j h w = refl
run_is_free_lem table i (suc left) j h w =
    let e : (i + j) % 2 ^ 32 ≡ i + j = omega arith in
    let e' : i + (j + 1) ≡ i + j + 1 = omega arith in
    rw
      (
        e,
        read_lem table (i + j) (omega arith),
        run_is_free_lem table i left (j + 1) (omega arith) w,
        e',
      )
      (ground arith)

-- What the search answers: the first run that is free, or that there is none that ends before
-- the last entry.
abbrev pub IsFirst : List ℕ → ℕ → ℕ → ℕ → ℕ → Type 0
IsFirst table size n lo r =
    (lo ≤ r)
    × (r + n < size)
    × IsFreeRun table n r
    × ((k : ℕ) → lo ≤ k → k < r → ¬ IsFreeRun table n k)

pub data Answer (table : List ℕ) (size n lo : ℕ) : ℕ → Type 0 where
  first : {r : ℕ} → IsFirst table size n lo r → Answer table size n lo r
  nothing :
      {r : ℕ}
      → r ≡ out_of_free_blocks
      → ((k : ℕ) → lo ≤ k → k + n < size → ¬ IsFreeRun table n k)
      → Answer table size n lo r

-- One more entry in front at which no run starts.
Answer-later :
    {table : List ℕ} {size n lo r : ℕ}
    → ¬ IsFreeRun table n lo
    → Answer table size n (lo + 1) r
    → Answer table size n lo r
Answer-later {table} {n = n} {lo = lo} {r = r} no_run (first (a, b, c, d)) =
    first (omega arith, b, c, from_suc (λ k. k < r → ¬ IsFreeRun table n k) lo (λ _. no_run) d)
Answer-later {table} {size} {n = n} {lo = lo} no_run (nothing e d) =
    nothing e (from_suc (λ k. k + n < size → ¬ IsFreeRun table n k) lo (λ _. no_run) d)

not_free_run : (table : List ℕ) (n i : ℕ) → free_run table n i ≡ false → ¬ IsFreeRun table n i
not_free_run table n i taken run = cc (IsFreeRun-free_run table n i run)

not_run_of_used :
    (table : List ℕ) (n i : ℕ) → 0 < n → in_use (get_or table i 0) ≡ true → ¬ IsFreeRun table n i
not_run_of_used table n i pos used run =
    let e : i + 0 ≡ i = omega arith in
    let unused : in_use (get_or table i 0) ≡ false = rw e at (run 0 pos) in cc

find_from_lem :
    (table : List ℕ) (size n left i : ℕ)
    → 0 < n
    → n ≤ 2 ^ 20
    → i + left ≡ size
    → size ≤ length table
    → length table ≤ 2 ^ 20
    → (r : ℕ) × (find_from table size n left i ≡ ok r) × Answer table size n i r
unfolding find_from
find_from_lem table size n zero i pos small e len w =
    (out_of_free_blocks, refl, nothing refl (λ k p q. absurd (omega arith)))
find_from_lem table size n (suc left) i pos small e len w =
    let (r, found, answer) =
      find_from_lem table size n left (i + 1) pos small (omega arith) len w in
    let word : (i + n) % 2 ^ 32 ≡ i + n = omega arith in
    let here : i + 0 ≡ i = omega arith in
    rw (read_lem table i (omega arith), word)
      (elim (Bool-cases (in_use (get_or table i 0))) [
        | inl used ↦ rw used (r, found, Answer-later (not_run_of_used table n i pos used) answer)
        | inr unused ↦ rw unused (elim (Bool-cases (leb size (i + n))) [
          | inl behind ↦
              rw behind (out_of_free_blocks, refl, nothing refl (λ k p q. absurd (ground arith)))
          | inr room ↦
              rw (room, run_is_free_lem table i n 0 (ground arith) (omega arith), here)
                (elim (Bool-cases (free_run table n i)) [
                  | inl free ↦ rw free (
                    i,
                    refl,
                    first {r = i} (
                      omega arith,
                      ground arith,
                      free_run-IsFreeRun table n i free,
                      λ k p q. absurd (omega arith),
                    ),
                  )
                  | inr taken ↦
                      rw taken (r, found, Answer-later (not_free_run table n i taken) answer)
                ])
        ])
      ])

-- Searching a whole table for `n` unused entries in a row returns: the first run that is free and
-- ends before the last entry, if there is one, and OUT_OF_FREE_BLOCKS if there is none.
pub find_free_blocks_offset_lem :
    (table : List ℕ) (size n : ℕ)
    → 0 < n
    → n ≤ 2 ^ 20
    → size ≤ length table
    → length table ≤ 2 ^ 20
    → (r : ℕ) × (find_free_blocks_offset table size n ≡ ok r) × Answer table size n 0 r
unfolding find_free_blocks_offset
find_free_blocks_offset_lem table size n pos small len w =
    find_from_lem table size n size 0 pos small (omega arith) len w

-- A run that ends with the last entry of the table is never used: if no run of `n` unused entries
-- ends before the last entry, the search answers OUT_OF_FREE_BLOCKS, also where the last `n` entries
-- are unused.
pub find_last_run_refused :
    (table : List ℕ) (size n : ℕ)
    → 0 < n
    → n ≤ size
    → size ≤ length table
    → length table ≤ 2 ^ 20
    → ((k : ℕ) → k + n < size → ¬ IsFreeRun table n k)
    → IsFreeRun table n (size - n)
    → find_free_blocks_offset table size n ≡ ok out_of_free_blocks
find_last_run_refused table size n pos small len w none last =
    let (r, found, answer) = find_free_blocks_offset_lem table size n pos (omega arith) len w in
    found ∙ ap ok (by_answer answer)
  where
    by_answer : {r : ℕ} → Answer table size n 0 r → r ≡ out_of_free_blocks
    by_answer {r} (first (lo, room, run, before)) = absurd (none r room run)
    by_answer (nothing e before) = e
