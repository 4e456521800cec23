-- ===== src/Mutex/Tests.antt =====
-- The theorems on the mutex at concrete inputs.
use aeon_486_os.Base.{ℕ, ◌≡◌, ◌≢◌, arith, refl, nonzero, true}
use aeon_486_os.Mutex.Tasks.{
  System, Reach, CalmReach, start, calm_here, calm_next, move, test, set_locked, inside, tested,
}
use aeon_486_os.Mutex.Exclusion.{both_inside, calm_exclusion}

both_inside_example : (s : System) × Reach s × (s.place 0 ≡ inside) × (s.place 1 ≡ inside)
both_inside_example = both_inside 0 1 (λ e. omega arith)

no_test : (t : ℕ) → start.place t ≢ tested
no_test t e = cc

-- Task 3 after its two steps.
abbrev third_inside : System
third_inside = record {
  mutex = record { locked = 1 };
  place = move (move start.place 3 tested) 3 inside;
}

third_inside-CalmReach : CalmReach third_inside
third_inside-CalmReach =
    calm_next (calm_next calm_here (test 3 refl refl) (λ k e. cc)) (set_locked 3 refl)
      (λ k e. grind (arith, no_test k))

calm_exclusion_example : ◌≡◌ {A = ℕ} 3 3 × (nonzero 1 ≡ true)
calm_exclusion_example = calm_exclusion 3 3 third_inside-CalmReach refl refl
