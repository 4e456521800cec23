-- ===== src/Klibc/Strings.antt =====
-- klibc/private/string.c, ctype.c and stdlib.c. A string in memory is a list of character codes that
-- holds its terminating 0, and a read behind it is `fault`. `itoa` stores the digits in `tbuf`,
-- which is the list of its first `pos` entries here, and copies them out back to front; what it
-- returns is the text without its 0.
pub mod Numerals
pub mod Digits
pub mod Shortest
use aeon_486_os.Base.{ℕ, zero, suc, ◌+◌, ◌/◌, ◌%◌, List, [], ◌∷◌, Option, none, some}
use aeon_486_os.Base.{
  Bool, ◌||◌, ◌&&◌, ltb, leb, ◌==◌, if◌then◌else◌, Outcome, ok, fault, ◌>>=◌, read,
}
use aeon_486_os.Base.Word.{sub32}

unfoldable pub isprint : ℕ → Bool
isprint ch = leb 0x20 ch && leb ch 0x7e

-- The loop of `strlen` at `i`.
unfoldable pub strlen_from : List ℕ → ℕ → Outcome ℕ
strlen_from [] i = fault
strlen_from (c ∷ str) i = if c == 0 then ok i else strlen_from str (i + 1)

unfoldable pub strlen : List ℕ → Outcome ℕ
unfolding strlen_from
strlen str = strlen_from str 0

abbrev pub bchars : List ℕ
bchars =
    b'0' ∷ b'1' ∷ b'2' ∷ b'3' ∷ b'4' ∷ b'5' ∷ b'6' ∷ b'7' ∷ b'8' ∷ b'9' ∷ b'A' ∷ b'B' ∷ b'C' ∷ b'D'
    ∷ b'E' ∷ b'F' ∷ []

-- The loop that fills `tbuf`, lowest digit first, with one round more than `tbuf` has room for: a
-- round without room stores behind it. A division by 0 is `fault` too.
unfoldable pub digits_from : ℕ → ℕ → ℕ → Outcome (List ℕ)
digits_from zero value base = fault
digits_from (suc room) value base =
    let rest = digits_from room (value / base) base in
    if value == 0
    then ok []
    else if base == 0
    then fault
    else do c ← read bchars (value % base); tbuf ← rest; ok (c ∷ tbuf)

-- The loop that copies `tbuf` out from its last entry to its first.
unfoldable pub copy_out : List ℕ → List ℕ → List ℕ
copy_out [] str = str
copy_out (c ∷ tbuf) str = copy_out tbuf (c ∷ str)

-- `tbuf` has 32 entries.
unfoldable pub itoa : ℕ → ℕ → Outcome (List ℕ)
itoa value base =
    if value == 0 || ltb 16 base
    then ok (b'0' ∷ [])
    else do tbuf ← digits_from 33 value base; ok (copy_out tbuf [])

-- `none` is NULL. `value` is unsigned, as in the source.
unfoldable pub itoa_s : ℕ → ℕ → Outcome (Option (List ℕ))
itoa_s value base =
    if ltb 16 base
    then ok none
    else if ltb value 0
    then (do text ← itoa (sub32 0 value) base; ok (some (b'-' ∷ text)))
    else do text ← itoa value base; ok (some text)
