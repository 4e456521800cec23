-- ===== src/Memory/Allocator/Refinement.antt =====
-- `kmalloc` of memory.c as an operation on blocks.
use aeon_486_os.Base.{
  ℕ, suc, ◌+◌, ◌*◌, ◌/◌, ◌<◌, ◌≡◌, refl, arith, ap, ◌∙◌, sym, subst, length, List, [], ◌∷◌, none,
  some, ◌==◌, Bool-cases, inl, inr, ok, panic, out_of_physical_memory, out_of_page_space,
}
use aeon_486_os.Memory.Allocator.{Kernel, kmalloc, mem_block_size}
use aeon_486_os.Memory.Allocator.Bitmap.{used}
use aeon_486_os.Memory.Paging.{page_count_of, kernel_page_tables_len}
use aeon_486_os.Memory.Paging.Find.{IsFreeRun}
use aeon_486_os.Memory.Allocator.Kmalloc.{IsValid, IsTaken, kmalloc_small}
use aeon_486_os.Memory.Allocator.Blocks.{
  Blocks, Allocs, Different, Allocs-Different, alloc, take_block, alloc-none, alloc-some,
  Blocks_ext,
}

-- The blocks that a kernel has and has given out.
unfoldable pub view : Kernel → Blocks
view k = record {
  capacity = k.allocator.block_count / 32 * 32;
  taken = λ b. used k.allocator.mem_map b == 1;
}

-- What a call of `kmalloc` does, with `alloc` as its measure.
pub data Refines (k : Kernel) (size : ℕ) : Type 0 where
  out_of_blocks :
      alloc (view k) ≡ none → kmalloc k size ≡ panic out_of_physical_memory → Refines k size
  out_of_pages :
      ((i : ℕ)
        → i + page_count_of size < kernel_page_tables_len
        → ¬ IsFreeRun k.table (page_count_of size) i)
      → kmalloc k size ≡ panic out_of_page_space
      → Refines k size
  given :
      (b va : ℕ) (k' : Kernel)
      → alloc (view k) ≡ some (b, view k')
      → kmalloc k size ≡ ok (va, k')
      → IsValid k'
      → IsTaken k size b va k'
      → Refines k size

taken-IsValid : {k k' : Kernel} {size b va : ℕ} → IsValid k → IsTaken k size b va k' → IsValid k'
taken-IsValid v t = record {
  tables = t.mapped.same_length ∙ v.tables;
  in_map = rw (t.same_count, t.marked.same_length) v.in_map;
  map_small = rw (t.marked.same_length) v.map_small;
}

view-taken :
    (k k' : Kernel) (size b va : ℕ)
    → size < mem_block_size
    → IsTaken k size b va k'
    → view k' ≡ take_block b (view k)
unfolding view take_block
view-taken k k' size b va small t =
    let one : page_count_of size ≡ 1 = omega arith in
    Blocks_ext (view k') (take_block b (view k)) (ap (λ n. n / 32 * 32) t.same_count) (λ c.
      elim (Bool-cases (c == b)) [
        | inl own ↦
            let same : c ≡ b = ground arith in
            let mark = t.marked.inside c (omega arith) (omega (arith, one)) in rw (own, mark) refl
        | inr other ↦ let kept = t.marked.outside c (ground (arith, one)) in rw (other, kept) refl
      ])

-- A request of less than a block, on a valid state, does what the abstract allocator does: without a
-- free block it stops for want of memory; otherwise it stops for want of pages, with no unused page
-- ahead of the last, or it gives the block that the abstract allocator gives, the blocks afterwards
-- are those of the abstract state afterwards, and the state is valid again.
pub kmalloc-Refines : (k : Kernel) (size : ℕ) → IsValid k → size < mem_block_size → Refines k size
unfolding view
kmalloc-Refines k size valid small = elim (kmalloc_small k size valid small) [
  | inl (stopped, all_used) ↦
      out_of_blocks (alloc-none (view k) (λ b inside. rw (all_used b inside) refl)) stopped
  | inr (b, inside, free, before, inl (stopped, no_page)) ↦ out_of_pages no_page stopped
  | inr (b, inside, free, before, inr (va, k', returns, t)) ↦
      let gives = alloc-some (view k) b inside (rw free refl) (λ d less. rw (before d less) refl) in
      given b va k' (gives ∙ ap (λ s. some (b, s)) (sym (view-taken k k' size b va small t)))
        returns (taken-IsValid valid t) t
]

-- Calls of `kmalloc` one behind the other: the sizes, and the addresses that they returned.
pub data Kmallocs : Kernel → (sizes : List ℕ) → (addresses : List ℕ) → Kernel → Type 0 where
  no_call : {k : Kernel} → Kmallocs k [] [] k
  a_call :
      {k k' k'' : Kernel} {size va : ℕ} {sizes addresses : List ℕ}
      → size < mem_block_size
      → kmalloc k size ≡ ok (va, k')
      → Kmallocs k' sizes addresses k''
      → Kmallocs k (size ∷ sizes) (va ∷ addresses) k''

-- A call that returned, as a call of the abstract allocator.
returned :
    (k k' : Kernel) (size va : ℕ)
    → kmalloc k size ≡ ok (va, k')
    → Refines k size
    → (b : ℕ) × (alloc (view k) ≡ some (b, view k')) × IsValid k'
returned k k' size va returns (out_of_blocks gives stopped) = absurd (cc (returns, stopped))
returned k k' size va returns (out_of_pages no_page stopped) = absurd (cc (returns, stopped))
returned k k' size va returns (given b va' k'' gives returns' valid taken) =
    let same : k'' ≡ k' = cc (returns, returns') in
    (b, subst (λ x. alloc (view k) ≡ some (b, view x)) same gives, subst IsValid same valid)

-- Calls of `kmalloc` for less than a block each, from a valid state on, that all return are a run of
-- the abstract allocator between the blocks of their states: it gives one block to each call, all of
-- them different, and the state at the end is valid.
pub Kmallocs-Allocs :
    (k k' : Kernel) (sizes addresses : List ℕ)
    → IsValid k
    → Kmallocs k sizes addresses k'
    → (bs : List ℕ) × Allocs (view k) bs (view k')
      × (length bs ≡ length sizes)
      × Different bs
      × IsValid k'
Kmallocs-Allocs k k' sizes addresses valid run =
    let (bs, abstract_run, size, valid') = run_of k k' sizes addresses valid run in
    (bs, abstract_run, size, Allocs-Different (view k) (view k') bs abstract_run, valid')
  where
    run_of :
        (k k' : Kernel) (sizes addresses : List ℕ)
        → IsValid k
        → Kmallocs k sizes addresses k'
        → (bs : List ℕ) × Allocs (view k) bs (view k') × (length bs ≡ length sizes) × IsValid k'
    run_of k k' [] [] valid no_call = ([], Allocs.no_call, refl, valid)
    run_of k k'' (size ∷ sizes) (va ∷ addresses) valid (a_call {k' = k'} small returns run) =
        let (b, gives, valid') =
          returned k k' size va returns (kmalloc-Refines k size valid small) in
        let (bs, later, count, valid'') = run_of k' k'' sizes addresses valid' run in
        (b ∷ bs, Allocs.a_call gives later, ap suc count, valid'')
    run_of k k' [] (va ∷ addresses) valid run = elim run [ ]
    run_of k k' (size ∷ sizes) [] valid run = elim run [ ]
