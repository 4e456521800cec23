-- ===== src/Mutex.antt =====
-- kernel/lib/mutex.c. Alone, a task that finds the mutex locked turns in its loop for ever: `none`.
-- Among others the test of the loop and the store behind it are two steps, and other tasks may step
-- in between.
pub mod Tasks
pub mod Exclusion
mod Tests
use aeon_486_os.Base.{ℕ, nonzero, if◌then◌else◌, Option, none, some}

pub record Mutex : Type 0 where
  pub locked : ℕ

-- DEFINE_MUTEX
abbrev pub new_mutex : Mutex
new_mutex = record { locked = 0 }

unfoldable pub mutex_lock : Mutex → Option Mutex
mutex_lock m = if nonzero m.locked then none else some (record { locked = 1 })

unfoldable pub mutex_unlock : Mutex → Mutex
mutex_unlock m = record { locked = 0 }
