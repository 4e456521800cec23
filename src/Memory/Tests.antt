-- ===== src/Memory/Tests.antt =====
-- Runs of the memory routines on small inputs, and their theorems at such inputs.
mod Paging
pub mod Allocator
use aeon_486_os.Base.{
  ℕ, List, ◌∷◌, ◌≡◌, refl, ap, suc, length, replicate, length-replicate, get_or-replicate,
}
use aeon_486_os.Memory.Paging.Unpage.{IsClean}

-- The kernel's tables with nothing mapped.
abbrev empty : List ℕ
empty = replicate 3072 0

-- The same with one page at the start, mapped to 0x200000.
abbrev pub one_page : List ℕ
one_page = 0x200403 ∷ replicate 3071 0

length-empty : length empty ≡ 3072
length-empty = length-replicate {A = ℕ} 3072 0

pub length-one_page : length one_page ≡ 3072
length-one_page = ap suc (length-replicate {A = ℕ} 3071 0)

empty-IsClean : IsClean empty
empty-IsClean j unused = get_or-replicate {A = ℕ} 3072 j 0
