-- ===== src/Memory/Allocator/Blocks.antt =====
-- What the allocator of memory.c promises, without words, bits or addresses: a number of blocks, some
-- of them taken, of which the first free one is given out.
use aeon_486_os.Base.{
  ℕ, zero, suc, ◌+◌, ◌≤◌, ◌<◌, ◌≡◌, refl, arith, ap, subst, ap₂, fun_ext, ◌∙◌, sym, List, [], ◌∷◌,
  Option, none, some, Bool, true, false, ◌==◌, ==→eq, if◌then◌else◌, Bool-cases, inl, inr,
}

pub record Blocks : Type 0 where
  pub capacity : ℕ
  pub taken : ℕ → Bool

-- The first free block from `c` on, with `left` to look at.
unfoldable pub first_free : (taken : ℕ → Bool) → (left c : ℕ) → Option ℕ
first_free taken zero c = none
first_free taken (suc left) c =
    let rest = first_free taken left (c + 1) in if taken c then rest else some c

unfoldable pub take_block : ℕ → Blocks → Blocks
take_block b s = record s { taken = λ c. if c == b then true else s.taken c }

unfoldable pub give : Blocks → Option ℕ → Option (ℕ × Blocks)
give s none = none
give s (some b) = some (b, take_block b s)

unfoldable pub alloc : Blocks → Option (ℕ × Blocks)
alloc s = give s (first_free s.taken s.capacity 0)

-- The blocks that calls one behind the other gave, from a state to a state.
pub data Allocs : Blocks → List ℕ → Blocks → Type 0 where
  no_call : {s : Blocks} → Allocs s [] s
  a_call :
      {s s' s'' : Blocks} {b : ℕ} {bs : List ℕ}
      → alloc s ≡ some (b, s')
      → Allocs s' bs s''
      → Allocs s (b ∷ bs) s''

first_free-none :
    (taken : ℕ → Bool) (left c : ℕ)
    → ((b : ℕ) → c ≤ b → b < c + left → taken b ≡ true)
    → first_free taken left c ≡ none
unfolding first_free
first_free-none taken zero c all = refl
first_free-none taken (suc left) c all =
    rw (all c (omega arith) (omega arith))
      (first_free-none taken left (c + 1) (λ b p q. all b (omega arith) (omega arith)))

first_free-some :
    (taken : ℕ → Bool) (left c b : ℕ)
    → c ≤ b
    → b < c + left
    → taken b ≡ false
    → ((d : ℕ) → c ≤ d → d < b → taken d ≡ true)
    → first_free taken left c ≡ some b
unfolding first_free
first_free-some taken zero c b from inside free before = absurd (omega arith)
first_free-some taken (suc left) c b from inside free before = elim (Bool-cases (c == b)) [
  | inl here ↦ let same : c ≡ b = ground arith in rw (same, free) refl
  | inr later ↦
      let next : c < b = ground arith in
      rw (before c (omega arith) next) (
        first_free-some taken left (c + 1) b (omega arith) (omega arith) free
          (λ d p q. before d (omega arith) q))
]

pub alloc-none : (s : Blocks) → ((b : ℕ) → b < s.capacity → s.taken b ≡ true) → alloc s ≡ none
unfolding alloc give
alloc-none s all = rw (first_free-none s.taken s.capacity 0 (λ b p q. all b (omega arith))) refl

pub alloc-some :
    (s : Blocks) (b : ℕ)
    → b < s.capacity
    → s.taken b ≡ false
    → ((d : ℕ) → d < b → s.taken d ≡ true)
    → alloc s ≡ some (b, take_block b s)
unfolding alloc give
alloc-some s b inside free before =
    rw
      (first_free-some s.taken s.capacity 0 b (omega arith) (omega arith) free
        (λ d p q. before d q))
      refl

-- A state is what it says of its capacity and of each block.
pub Blocks_ext :
    (s t : Blocks) → s.capacity ≡ t.capacity → ((c : ℕ) → s.taken c ≡ t.taken c) → s ≡ t
Blocks_ext s t same each = ap₂ (λ n f. record { capacity = n; taken = f }) same (fun_ext each)

first_free_sound :
    (taken : ℕ → Bool) (left c b : ℕ)
    → first_free taken left c ≡ some b
    → (b < c + left) × (taken b ≡ false)
unfolding first_free
first_free_sound taken zero c b found = cc
first_free_sound taken (suc left) c b found = elim (Bool-cases (taken c)) [
  | inl other ↦
      let skips : first_free taken (suc left) c ≡ first_free taken left (c + 1) = rw other refl in
      let (inside, free) = first_free_sound taken left (c + 1) b (sym skips ∙ found) in
      (omega arith, free)
  | inr free ↦
      let stops : first_free taken (suc left) c ≡ some c = rw free refl in
      let here : c ≡ b = cc (stops, found) in (omega arith, subst (λ x. taken x ≡ false) here free)
]

give-some :
    (s s' : Blocks) (found : Option ℕ) (b : ℕ)
    → give s found ≡ some (b, s')
    → (found ≡ some b) × (s' ≡ take_block b s)
unfolding give
give-some s s' none b gives = cc
give-some s s' (some d) b gives =
    let same : d ≡ b = cc in
    let after : s' ≡ take_block d s = cc in
    (ap some same, subst (λ x. s' ≡ take_block x s) same after)

-- The abstract allocator gives a block that it has and that was free, and keeps its number of blocks.
pub alloc_sound :
    (s s' : Blocks) (b : ℕ)
    → alloc s ≡ some (b, s')
    → (b < s.capacity) × (s.taken b ≡ false) × (s' ≡ take_block b s)
unfolding alloc
alloc_sound s s' b gives =
    let (found, after) = give-some s s' (first_free s.taken s.capacity 0) b gives in
    let (inside, free) = first_free_sound s.taken s.capacity 0 b found in (omega arith, free, after)

-- What is taken stays taken.
take_block-kept : (s : Blocks) (b c : ℕ) → s.taken c ≡ true → (take_block b s).taken c ≡ true
unfolding take_block
take_block-kept s b c kept = elim (Bool-cases (c == b)) [
  | inl own ↦ rw own refl
  | inr other ↦ rw other kept
]

take_block-own : (s : Blocks) (b : ℕ) → (take_block b s).taken b ≡ true
unfolding take_block
take_block-own s b = let own : (b == b) ≡ true = ground arith in rw own refl

unfoldable pub NotIn : ℕ → List ℕ → Type 0
NotIn c [] = Unit
NotIn c (b ∷ bs) = ((c == b) ≡ false) × NotIn c bs

unfoldable pub Different : List ℕ → Type 0
Different [] = Unit
Different (b ∷ bs) = NotIn b bs × Different bs

not_taken : (s : Blocks) (b c : ℕ) → s.taken c ≡ true → s.taken b ≡ false → (c == b) ≡ false
not_taken s b c kept free = elim (Bool-cases (c == b)) [
  | inl same ↦ absurd (cc (kept, free, ap s.taken (==→eq c b same)))
  | inr other ↦ other
]

-- No block of a run was taken before it.
Allocs-NotIn :
    (s s' : Blocks) (bs : List ℕ) (c : ℕ) → Allocs s bs s' → s.taken c ≡ true → NotIn c bs
unfolding NotIn
Allocs-NotIn s s' [] c no_call kept = tt
Allocs-NotIn s s'' (b ∷ bs) c (a_call {s' = s'} gives run) kept =
    let (inside, free, after) = alloc_sound s s' b gives in
    let kept' : s'.taken c ≡ true = rw after (take_block-kept s b c kept) in
    (not_taken s b c kept free, Allocs-NotIn s' s'' bs c run kept')

-- The blocks of a run are all different.
pub Allocs-Different : (s s' : Blocks) (bs : List ℕ) → Allocs s bs s' → Different bs
unfolding Different
Allocs-Different s s' [] no_call = tt
Allocs-Different s s'' (b ∷ bs) (a_call {s' = s'} gives run) =
    let (inside, free, after) = alloc_sound s s' b gives in
    let own : s'.taken b ≡ true = rw after (take_block-own s b) in
    (Allocs-NotIn s' s'' bs b run own, Allocs-Different s' s'' bs run)
