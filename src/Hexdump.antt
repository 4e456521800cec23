-- ===== src/Hexdump.antt =====
-- kernel/lib/hexdump.c. The dump is the list of its calls of `kprintf`; `bytes` is a list, and to read
-- behind it is `fault`. A loop has as many rounds as it has left at most.
pub mod Prints
pub mod Rows
pub mod Dump
mod Tests
use aeon_486_os.Base.{ℕ, zero, suc, ◌+◌, ◌-◌, List, [], ◌∷◌, ◌++◌, codes, replicate}
use aeon_486_os.Base.{ltb, if◌then◌else◌, Outcome, ok, fault, ◌>>=◌, read}
use aeon_486_os.Klibc.Strings.{isprint}
use aeon_486_os.Display.Output.{Argument, int, Call, kvprintf, shown}

-- A call of `kprintf`.
pub record Print : Type 0 where
  pub fmt : List ℕ
  pub arguments : List Argument

abbrev pub print_text : List ℕ → Print
print_text text = record { fmt = text ++ (0 ∷ []); arguments = [] }

abbrev pub print_offset : ℕ → Print
print_offset i = record { fmt = codes "%08x|" ++ (0 ∷ []); arguments = int i ∷ [] }

abbrev pub print_byte : ℕ → Print
print_byte byte = record { fmt = codes "%02x " ++ (0 ∷ []); arguments = int byte ∷ [] }

abbrev pub print_char : ℕ → Print
print_char byte =
    if isprint byte
    then record { fmt = codes "%c" ++ (0 ∷ []); arguments = int byte ∷ [] }
    else print_text (codes ".")

abbrev pub ruler : List ℕ
ruler = codes "--------|------------------------------------------------|----------------|\n"

abbrev pub titles : List ℕ
titles = codes " offset |00 01 02 03 04 05 06 07 08 09 0A 0B 0C 0D 0E 0F |0123456789ABCDEF|\n"

abbrev pub last_line : List ℕ
last_line = codes "---------------------------------------------------------------------------\n"

-- The variables of the loops and the calls so far.
pub record Cells : Type 0 where
  pub prints : List Print
  pub i : ℕ
  pub c : ℕ

-- The loop over the bytes of a row: `rounds` is 16 - c.
unfoldable pub byte_cells : (rounds : ℕ) → (bytes : List ℕ) → (len i c : ℕ) → Outcome Cells
byte_cells zero bytes len i c = ok (record { prints = []; i = i; c = c })
byte_cells (suc rounds) bytes len i c =
    if ltb i len
    then (do
      byte ← read bytes i
      rest ← byte_cells rounds bytes len (i + 1) (c + 1)
      ok (record rest { prints = print_byte byte ∷ rest.prints }))
    else ok (record { prints = []; i = i; c = c })

-- The loop over the same bytes as text: `rounds` is written - c.
unfoldable pub text_cells : (rounds : ℕ) → (bytes : List ℕ) → (start c : ℕ) → Outcome (List Print)
text_cells zero bytes start c = ok []
text_cells (suc rounds) bytes start c = do
  byte ← read bytes (start + c)
  rest ← text_cells rounds bytes start (c + 1)
  ok (print_char byte ∷ rest)

-- The body of the loop over the rows.
unfoldable pub print_row : (bytes : List ℕ) → (len i : ℕ) → Outcome Cells
print_row bytes len start = do
  cells ← byte_cells 16 bytes len start 0
  text ← text_cells cells.c bytes start 0
  ok (record cells {
    prints =
        print_offset start
        ∷ (cells.prints
            ++ (replicate (16 - cells.c) (print_text (codes "   "))
                ++ (print_text (codes "|")
                    ∷ (text
                        ++ (replicate (16 - cells.c) (print_text (codes " "))
                            ++ (print_text (codes "|\n") ∷ []))))));
  })

unfoldable pub rows : (fuel : ℕ) → (bytes : List ℕ) → (len i : ℕ) → Outcome (List Print)
rows zero bytes len i = if ltb i len then fault else ok []
rows (suc fuel) bytes len i =
    if ltb i len
    then (do
      cells ← print_row bytes len i
      rest ← rows fuel bytes len cells.i
      ok (cells.prints ++ rest))
    else ok []

-- A row takes at least a byte.
unfoldable pub khexdump : (src : List ℕ) → (len : ℕ) → Outcome (List Print)
unfolding rows
khexdump src len = do
  lines ← rows len src len 0
  ok (
      print_text ruler
      ∷ print_text titles
      ∷ print_text ruler
      ∷ (lines ++ (print_text last_line ∷ [])))

-- What the calls show, one behind the other.
unfoldable pub print_all : List Print → Outcome (List ℕ)
print_all [] = ok []
print_all (print ∷ prints) = do
  calls ← kvprintf print.fmt print.arguments
  rest ← print_all prints
  ok (shown calls ++ rest)
