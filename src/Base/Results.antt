-- ===== src/Base/Results.antt =====
-- How a kernel routine ends: it returns, it stops in `panic`, or it does what C leaves undefined
-- (here always an access outside of an array).
use Prim.Native.Nat.{ℕ}
use mathlib.Core.Path.{◌≡◌, refl}
use mathlib.Core.Logic.{◌⊎◌, inl, inr}
use mathlib.Core.List.{List}
use mathlib.Core.Option.{Option, none, some}
use native.Mathlib.Omega.{arith}
use aeon_486_os.Base.Lists.{get_elem?, set, length, get_elem?-eq-get_or, get_or, get_elem?-none}
use Prim.Native.Nat.{◌<◌, suc}

-- The text with which `panic` is called.
pub data Panic : Type 0 where
  out_of_physical_memory out_of_page_space unpage_locked multiboot_magic ata_failure : Panic

pub data Outcome {ℓ} (A : Type ℓ) : Type ℓ where
  ok : A → Outcome A
  panic : Panic → Outcome A
  fault : Outcome A

infixl 5 ◌>>=◌
abbrev pub ◌>>=◌ {ℓ κ} : {A : Type ℓ} {B : Type κ} → Outcome A → (A → Outcome B) → Outcome B
ok a >>= f = f a
panic p >>= f = panic p
fault >>= f = fault

abbrev pub of_option {ℓ} : {A : Type ℓ} → Option A → Outcome A
of_option none = fault
of_option (some a) = ok a

-- `a[i]` of an array of words.
unfoldable pub read : List ℕ → ℕ → Outcome ℕ
read xs i = of_option (get_elem? xs i)

-- `a[i] = v`.
unfoldable pub write : List ℕ → ℕ → ℕ → Outcome (List ℕ)
unfolding read
write xs i v = read xs i >>= λ old. ok (set xs i v)

pub read_lem : (xs : List ℕ) (i : ℕ) → i < length xs → read xs i ≡ ok (get_or xs i 0)
unfolding read
read_lem xs i h = ground (arith, get_elem?-eq-get_or xs i 0)

pub read-fault : (xs : List ℕ) (i : ℕ) → length xs < suc i → read xs i ≡ fault
unfolding read
read-fault xs i h = ground (arith, get_elem?-none xs i)

pub write_lem : (xs : List ℕ) (i v : ℕ) → i < length xs → write xs i v ≡ ok (set xs i v)
unfolding write
write_lem xs i v h = ground (arith, read_lem xs i)

pub Outcome-cases {ℓ} :
    {A : Type ℓ} (o : Outcome A)
    → ((a : A) × (o ≡ ok a)) ⊎ ((p : Panic) × (o ≡ panic p)) ⊎ (o ≡ fault)
Outcome-cases (ok a) = inl (a, refl)
Outcome-cases (panic p) = inr (inl (p, refl))
Outcome-cases fault = inr (inr refl)
