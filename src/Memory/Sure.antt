-- ===== src/Memory/Sure.antt =====
-- What holds of the result of a routine, if it returns one.
use aeon_486_os.Base.{
  ℕ, ◌≡◌, ◌<◌, ◌^◌, arith, subst, ◌∙◌, List, [], ◌∷◌, length, set, length-set, replicate, zero, suc,
  get_elem?, Outcome, ok, panic, fault, ◌>>=◌, read, write, of_option, Bool, true, false,
  if◌then◌else◌,
}

unfoldable pub Sure {ℓ} : {A : Type ℓ} → (A → Type 0) → Outcome A → Type 0
Sure P (ok a) = P a
Sure P (panic p) = Unit
Sure P fault = Unit

pub Sure-bind {ℓ κ} :
    {A : Type ℓ} {B : Type κ} (P : A → Type 0) (Q : B → Type 0) (o : Outcome A) (f : A → Outcome B)
    → Sure P o
    → ((a : A) → P a → Sure Q (f a))
    → Sure Q (o >>= f)
unfolding Sure
Sure-bind P Q (ok a) f h next = next a h
Sure-bind P Q (panic p) f h next = tt
Sure-bind P Q fault f h next = tt

pub Sure-ok {ℓ} : {A : Type ℓ} (P : A → Type 0) (o : Outcome A) (a : A) → Sure P o → o ≡ ok a → P a
unfolding Sure
Sure-ok P o a h e = subst (Sure P) e h

pub Sure-any {ℓ} : {A : Type ℓ} (o : Outcome A) → Sure (λ a. Unit) o
unfolding Sure
Sure-any (ok a) = tt
Sure-any (panic p) = tt
Sure-any fault = tt

pub Sure-if {ℓ} :
    {A : Type ℓ} (P : A → Type 0) (b : Bool) (o o' : Outcome A)
    → Sure P o
    → Sure P o'
    → Sure P (if b then o else o')
Sure-if P true o o' h h' = h
Sure-if P false o o' h h' = h'

unfoldable pub AllWords : List ℕ → Type 0
AllWords [] = Unit
AllWords (w ∷ ws) = (w < 2 ^ 32) × AllWords ws

-- An array of `n` words of 32 bits.
pub record IsArray (n : ℕ) (ws : List ℕ) : Type 0 where
  pub size : length ws ≡ n
  pub words : AllWords ws

AllWords-set : (ws : List ℕ) (i v : ℕ) → AllWords ws → v < 2 ^ 32 → AllWords (set ws i v)
unfolding AllWords
AllWords-set [] i v h fits = tt
AllWords-set (w ∷ ws) zero v (first, h) fits = (fits, h)
AllWords-set (w ∷ ws) (suc i) v (first, h) fits = (first, AllWords-set ws i v h fits)

pub AllWords-zeros : (n : ℕ) → AllWords (replicate n 0)
unfolding AllWords
AllWords-zeros zero = tt
AllWords-zeros (suc n) = (omega arith, AllWords-zeros n)

abbrev pub IsWord : ℕ → Type 0
IsWord w = w < 2 ^ 32

read-words : (ws : List ℕ) (i : ℕ) → AllWords ws → Sure IsWord (of_option (get_elem? ws i))
unfolding Sure AllWords
read-words [] i h = tt
read-words (w ∷ ws) zero (first, h) = first
read-words (w ∷ ws) (suc i) (first, h) = read-words ws i h

pub read-IsWord : (n : ℕ) (ws : List ℕ) (i : ℕ) → IsArray n ws → Sure IsWord (read ws i)
unfolding read
read-IsWord n ws i array = read-words ws i array.words

pub write-IsArray :
    (n : ℕ) (ws : List ℕ) (i v : ℕ) → IsArray n ws → v < 2 ^ 32 → Sure (IsArray n) (write ws i v)
unfolding write Sure
write-IsArray n ws i v array fits =
    Sure-bind (λ old. Unit) (IsArray n) (read ws i) (λ old. ok (set ws i v)) (Sure-any (read ws i))
      (λ old h. record {
        size = length-set ws i v ∙ array.size;
        words = AllWords-set ws i v array.words fits;
      })
