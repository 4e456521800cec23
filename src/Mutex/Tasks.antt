-- ===== src/Mutex/Tasks.antt =====
-- Tasks that share a mutex, as steps: each task is outside, behind its test of `locked` and ahead of
-- the store, or inside.
use aeon_486_os.Base.{ℕ, ◌≡◌, ◌==◌, nonzero, if◌then◌else◌, false, true}
use aeon_486_os.Mutex.{Mutex, new_mutex, mutex_unlock}

pub data Place : Type 0 where
  outside tested inside : Place

pub record System : Type 0 where
  pub mutex : Mutex
  pub place : ℕ → Place

abbrev pub move : (ℕ → Place) → ℕ → Place → ℕ → Place
move place task p = λ t. if t == task then p else place t

-- One step of one task.
pub data Step (s : System) : System → Type 0 where
  spin : (task : ℕ) → s.place task ≡ outside → nonzero s.mutex.locked ≡ true → Step s s
  test :
      (task : ℕ)
      → s.place task ≡ outside
      → nonzero s.mutex.locked ≡ false
      → Step s (record { mutex = s.mutex; place = move s.place task tested })
  set_locked :
      (task : ℕ)
      → s.place task ≡ tested
      → Step s (record { mutex = record { locked = 1 }; place = move s.place task inside })
  unlock :
      (task : ℕ)
      → s.place task ≡ inside
      → Step s (record { mutex = mutex_unlock s.mutex; place = move s.place task outside })

abbrev pub start : System
start = record { mutex = new_mutex; place = λ task. outside }

pub data Reach : System → Type 0 where
  here : Reach start
  next : {s t : System} → Reach s → Step s t → Reach t

-- The task that makes a step.
abbrev pub mover : {s t : System} → Step s t → ℕ
mover (spin task p l) = task
mover (test task p l) = task
mover (set_locked task p) = task
mover (unlock task p) = task

-- No other task steps while one is between its test and its store, as on one processor that is not
-- interrupted there.
pub data CalmReach : System → Type 0 where
  calm_here : CalmReach start
  calm_next :
      {s t : System}
      → CalmReach s
      → (st : Step s t) → ((k : ℕ) → s.place k ≡ tested → k ≡ mover st)
      → CalmReach t
