-- ===== src/Mutex/Exclusion.antt =====
-- Who can be inside.
use aeon_486_os.Base.{
  ℕ, ◌≡◌, ◌≢◌, nonzero, refl, arith, ◌∙◌, true, false, Bool-cases, inl, inr, sym, Option, none,
  some,
}
use aeon_486_os.Mutex.{Mutex, mutex_lock, mutex_unlock}
use aeon_486_os.Mutex.Tasks.{
  Place, outside, tested, inside, System, move, Step, spin, test, set_locked, unlock, start, Reach,
  here, next, mover, CalmReach, calm_here, calm_next,
}

move_self : (place : ℕ → Place) (task : ℕ) (p : Place) → move place task p task ≡ p
move_self place task p = ground arith

move_other : (place : ℕ → Place) (task t : ℕ) (p : Place) → t ≢ task → move place task p t ≡ place t
move_other place task t p ne = ground arith

clash : {m : Mutex} → ◌≡◌ {A = Option Mutex} none (some m) → ⊥
clash e = cc

some_injective : {a b : Mutex} → some a ≡ some b → a ≡ b
some_injective e = cc

-- Two different tasks that both test before either stores are both inside in the end.
pub both_inside :
    (i j : ℕ) → i ≢ j → (s : System) × Reach s × (s.place i ≡ inside) × (s.place j ≡ inside)
both_inside i j ne =
    let back : j ≢ i = λ e. ne (sym e) in
    let p1 = move start.place i tested in
    let p2 = move p1 j tested in
    let p3 = move p2 i inside in
    let i_waits : p2 i ≡ tested = move_other p1 j i tested ne ∙ move_self start.place i tested in
    let j_waits : p3 j ≡ tested = move_other p2 i j inside back ∙ move_self p1 j tested in
    (
      _,
      next
          (next
            (next (next here (test i refl refl))
              (test j (move_other start.place i j tested back) refl))
            (set_locked i i_waits))
          (set_locked j j_waits),
      move_other p3 j i inside ne ∙ move_self p2 i inside,
      move_self p3 j inside,
    )

record Inv (s : System) : Type 0 where
  one_inside : (i j : ℕ) → s.place i ≡ inside → s.place j ≡ inside → i ≡ j
  locked_inside : (i : ℕ) → s.place i ≡ inside → nonzero s.mutex.locked ≡ true
  free_tested : (i : ℕ) → s.place i ≡ tested → nonzero s.mutex.locked ≡ false
  one_tested : (i j : ℕ) → s.place i ≡ tested → s.place j ≡ tested → i ≡ j

start-Inv : Inv start
start-Inv = record {
  one_inside = λ i j p q. cc;
  locked_inside = λ i p. cc;
  free_tested = λ i p. cc;
  one_tested = λ i j p q. cc;
}

Step-Inv :
    {s t : System} (st : Step s t) → ((k : ℕ) → s.place k ≡ tested → k ≡ mover st) → Inv s → Inv t
unfolding mutex_unlock
Step-Inv (spin k p l) calm inv = inv
Step-Inv {s} (test k p l) calm inv = record {
  one_inside = λ i j a b. grind (arith, inv.one_inside i j);
  locked_inside = λ i a. grind (arith, inv.locked_inside i);
  free_tested = λ i a. l;
  one_tested = λ i j a b. grind (arith, calm i, calm j);
}
Step-Inv {s} (set_locked k p) calm inv = record {
  one_inside =
      λ i j a b. grind (arith, inv.locked_inside i, inv.locked_inside j, inv.free_tested k);
  locked_inside = λ i a. refl;
  free_tested = λ i a. grind (arith, inv.one_tested i k);
  one_tested = λ i j a b. grind (arith, inv.one_tested i j);
}
Step-Inv {s} (unlock k p) calm inv = record {
  one_inside = λ i j a b. grind (arith, inv.one_inside i k, inv.one_inside j k);
  locked_inside = λ i a. grind (arith, inv.one_inside i k);
  free_tested = λ i a. refl;
  one_tested = λ i j a b. grind (arith, inv.one_tested i j);
}

CalmReach-Inv : {s : System} → CalmReach s → Inv s
CalmReach-Inv calm_here = start-Inv
CalmReach-Inv (calm_next r st calm) = Step-Inv st calm (CalmReach-Inv r)

-- Where no other task steps while one is between its test and its store, two tasks that are inside
-- are the same task, and the mutex is locked.
pub calm_exclusion :
    {s : System} (i j : ℕ)
    → CalmReach s
    → s.place i ≡ inside
    → s.place j ≡ inside
    → (i ≡ j) × (nonzero s.mutex.locked ≡ true)
calm_exclusion i j r p q =
    let inv = CalmReach-Inv r in (inv.one_inside i j p q, inv.locked_inside i p)

-- Where no task is between its test and its store, a task that is outside gets inside in two such
-- steps if `mutex_lock` returns, and leaves the mutex as `mutex_lock` does.
pub calm_lock :
    {s : System} (k : ℕ) (m : Mutex)
    → CalmReach s
    → ((t : ℕ) → s.place t ≢ tested)
    → s.place k ≡ outside
    → mutex_lock s.mutex ≡ some m
    → (t : System) × CalmReach t × (t.place k ≡ inside) × (t.mutex ≡ m)
unfolding mutex_lock
calm_lock {s} k m r quiet out locks = elim (Bool-cases (nonzero s.mutex.locked)) [
  | inl taken ↦ absurd (clash (rw taken at locks))
  | inr free ↦
      let p1 = move s.place k tested in
      let there : p1 k ≡ tested = move_self s.place k tested in
      (
        record { mutex = record { locked = 1 }; place = move p1 k inside },
        calm_next (calm_next r (test k out free) (λ t q. absurd (quiet t q))) (set_locked k there)
            (λ t q. grind (arith, quiet t)),
        move_self p1 k inside,
        some_injective (rw free at locks),
      )
]
