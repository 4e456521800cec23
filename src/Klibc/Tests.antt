-- ===== src/Klibc/Tests.antt =====
-- The theorems on the C library at concrete inputs.
use aeon_486_os.Base.{arith, ◌≡◌, inl, refl, ok, [], ◌∷◌, ℕ, List, ◌≤◌, length, read}
use aeon_486_os.Klibc.Memory.{Memory, memcpy}
use aeon_486_os.Klibc.Memory.Copy.{IsCopied, memcpy-IsCopied}
use aeon_486_os.Klibc.Strings.{itoa, digits_from, copy_out}
use aeon_486_os.Klibc.Strings.Numerals.{parse, itoa_lem}

-- Each byte holds its address.
abbrev counting : Memory
counting = λ x. x

-- An odd number of bytes, and a target in front of the source that overlaps it.
memcpy-IsCopied_example : IsCopied counting (memcpy counting 100 103 7) 100 103 7
memcpy-IsCopied_example = memcpy-IsCopied counting 100 103 7 (inl (omega arith))

itoa_lem_example :
    (text : List ℕ) × (itoa 0xb8000 16 ≡ ok text) × (parse 16 text ≡ 0xb8000) × (length text ≤ 32)
itoa_lem_example = itoa_lem 0xb8000 16 (omega arith) (omega arith) (omega arith)

printed_minus_one :
    itoa 0xffffffff 16 ≡ ok (b'F' ∷ b'F' ∷ b'F' ∷ b'F' ∷ b'F' ∷ b'F' ∷ b'F' ∷ b'F' ∷ [])
unfolding itoa digits_from copy_out read
printed_minus_one = refl
