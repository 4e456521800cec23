-- ===== src/Memory/Arrays.antt =====
-- The routines of paging.c and memory.c keep the size of their arrays, and store words of 32 bits.
use aeon_486_os.Base.{
  ℕ, zero, suc, ◌+◌, ◌-◌, ◌/◌, ◌^◌, ◌%◌, arith, List, length, ok, panic, fault, ◌>>=◌, read, write,
  bit_and, bit_or, nonzero, leb, ◌==◌, out_of_page_space, unpage_locked,
}
use aeon_486_os.Base.Word.{u32, not32}
use aeon_486_os.Base.Word.Masks.{bit_or-lt, pow-lt}
use aeon_486_os.Base.Word.Low.{bit_and-lt}
use aeon_486_os.Memory.Paging.{
  create_pages, page, page_entry, unpage, unpage_from, page_size, ptf_present, ptf_read_write,
  ptf_aeon_locked, kernel_first_page_table_offset, page_dir_index, ptf_aeon_end_of_block,
  find_free_blocks_offset, page_count_of, kernel_page_tables_len, out_of_free_blocks, kernel_index,
}
use aeon_486_os.Memory.Allocator.{
  mem_memory_map_set, mem_memory_map_unset, set_blocks, unset_blocks,
}
use aeon_486_os.Memory.Sure.{
  Sure, Sure-bind, Sure-any, Sure-if, IsArray, IsWord, read-IsWord, write-IsArray,
}

-- A number with an array.
abbrev pub WithArray : ℕ → ℕ × List ℕ → Type 0
WithArray n pair = IsArray n (pair.1)

page_entry-IsWord :
    (address flags : ℕ) → IsWord address → IsWord flags → IsWord (page_entry address flags)
page_entry-IsWord address flags ha hf =
    bit_or-lt 32 (bit_or address flags) ptf_present (bit_or-lt 32 address flags ha hf) (omega arith)

create_pages-IsArray :
    (n flags : ℕ) (left : ℕ) (table : List ℕ) (address i : ℕ)
    → IsArray n table
    → IsWord address
    → IsWord flags
    → Sure (IsArray n) (create_pages table flags address left i)
unfolding create_pages Sure
create_pages-IsArray n flags zero table address i array ha hf = array
create_pages-IsArray n flags (suc left) table address i array ha hf =
    Sure-bind (IsArray n) (IsArray n) (write table i (page_entry address flags)) _
      (write-IsArray n table i (page_entry address flags) array
        (page_entry-IsWord address flags ha hf))
      (λ table' array'.
        create_pages-IsArray n flags left table' (u32 (address + page_size)) (i + 1) array'
          (omega arith) hf)

-- A page with the last entry marked.
finish-IsArray :
    (n end : ℕ) (created : List ℕ) (va : ℕ)
    → IsArray n created
    → Sure (WithArray n) (
        read created (end - 1) >>= λ last.
        write created (end - 1) (bit_or last ptf_aeon_end_of_block) >>= λ mapped. ok (va, mapped))
unfolding Sure
finish-IsArray n end created va array =
    Sure-bind IsWord (WithArray n) (read created (end - 1)) _
      (read-IsWord n created (end - 1) array)
      (λ last fits.
        Sure-bind (IsArray n) (WithArray n)
          (write created (end - 1) (bit_or last ptf_aeon_end_of_block)) _
          (write-IsArray n created (end - 1) (bit_or last ptf_aeon_end_of_block) array
            (bit_or-lt 32 last ptf_aeon_end_of_block fits (omega arith)))
          (λ mapped array'. array'))

-- For a table that the kernel maps into.
pub page-IsArray :
    (n : ℕ) (table : List ℕ) (address size : ℕ)
    → IsArray n table
    → IsWord address
    → Sure (WithArray n) (page table address size ptf_read_write)
unfolding page Sure
page-IsArray n table address size array ha =
    let count = page_count_of size in
    Sure-bind (λ i. Unit) (WithArray n) (find_free_blocks_offset table kernel_page_tables_len count)
      _ (Sure-any _)
      (λ offset h.
        Sure-if (WithArray n) (offset == out_of_free_blocks) (panic out_of_page_space) _ tt (
          Sure-bind (IsArray n) (WithArray n)
            (create_pages table ptf_read_write address (u32 (offset + count) - offset) offset) _
            (create_pages-IsArray n ptf_read_write (u32 (offset + count) - offset) table address
              offset array ha (omega arith))
            (λ created array'. finish-IsArray n (u32 (offset + count)) created _ array')))

unpage_from-IsArray :
    (n fuel : ℕ) (table : List ℕ) (i page_count : ℕ)
    → IsArray n table
    → Sure (WithArray n) (unpage_from fuel table i page_count)
unfolding unpage_from Sure
unpage_from-IsArray n zero table i page_count array = tt
unpage_from-IsArray n (suc fuel) table i page_count array =
    Sure-bind IsWord (WithArray n) (read table i) _ (read-IsWord n table i array) (λ entry fits.
      Sure-if (WithArray n) (nonzero (bit_and entry ptf_aeon_locked)) (panic unpage_locked) _ tt (
        Sure-bind (IsArray n) (WithArray n) (write table i 0) _
          (write-IsArray n table i 0 array (omega arith))
          (λ table' array'.
            Sure-if (WithArray n) (nonzero (bit_and entry ptf_aeon_end_of_block))
              (ok (u32 (page_count + 1), table')) _ array'
              (unpage_from-IsArray n fuel table' (i + 1) (u32 (page_count + 1)) array'))))

pub unpage-IsArray :
    (n : ℕ) (table : List ℕ) (address : ℕ)
    → IsArray n table
    → Sure (WithArray n) (unpage table address)
unfolding unpage Sure
unpage-IsArray n table address array =
    Sure-if (WithArray n) (leb kernel_first_page_table_offset (page_dir_index address)) _ fault
      (unpage_from-IsArray n (suc (length table)) table (kernel_index address) 0 array) tt

set-IsArray :
    (n : ℕ) (map : List ℕ) (b : ℕ) → IsArray n map → Sure (IsArray n) (mem_memory_map_set map b)
unfolding mem_memory_map_set
set-IsArray n map b array =
    Sure-bind IsWord (IsArray n) (read map (b / 32)) _ (read-IsWord n map (b / 32) array)
      (λ word fits.
        write-IsArray n map (b / 32) (bit_or word (2 ^ (b % 32))) array
          (bit_or-lt 32 word (2 ^ (b % 32)) fits (pow-lt (b % 32) (omega arith))))

unset-IsArray :
    (n : ℕ) (map : List ℕ) (b : ℕ) → IsArray n map → Sure (IsArray n) (mem_memory_map_unset map b)
unfolding mem_memory_map_unset
unset-IsArray n map b array =
    Sure-bind IsWord (IsArray n) (read map (b / 32)) _ (read-IsWord n map (b / 32) array)
      (λ word fits.
        write-IsArray n map (b / 32) (bit_and word (not32 (2 ^ (b % 32)))) array
          (bit_and-lt 32 word (not32 (2 ^ (b % 32))) fits))

pub set_blocks-IsArray :
    (n left : ℕ) (map : List ℕ) (b : ℕ) → IsArray n map → Sure (IsArray n) (set_blocks map left b)
unfolding set_blocks Sure
set_blocks-IsArray n zero map b array = array
set_blocks-IsArray n (suc left) map b array =
    Sure-bind (IsArray n) (IsArray n) (mem_memory_map_set map (u32 b)) _
      (set-IsArray n map (u32 b) array)
      (λ map' array'. set_blocks-IsArray n left map' (b + 1) array')

pub unset_blocks-IsArray :
    (n left : ℕ) (map : List ℕ) (b : ℕ) → IsArray n map → Sure (IsArray n) (unset_blocks map left b)
unfolding unset_blocks Sure
unset_blocks-IsArray n zero map b array = array
unset_blocks-IsArray n (suc left) map b array =
    Sure-bind (IsArray n) (IsArray n) (mem_memory_map_unset map (u32 b)) _
      (unset-IsArray n map (u32 b) array)
      (λ map' array'. unset_blocks-IsArray n left map' (b + 1) array')
