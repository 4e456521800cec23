-- ===== src/Hexdump/Dump.antt =====
-- The whole text of `khexdump`.
use aeon_486_os.Base.{
  ℕ, zero, suc, ◌+◌, ◌≤◌, ◌<◌, ◌^◌, ◌⊎◌, ◌≡◌, refl, arith, ◌∙◌, sym, ap, List, [], ◌∷◌, ◌++◌,
  length, length-append, min,
}
use aeon_486_os.Base.{Bool-cases, leb, true, false, ltb, ok, inl, inr}
use mathlib.Core.List.{append_assoc}
use aeon_486_os.Display.Output.Text.{drop, drop-append}
use aeon_486_os.Hexdump.{Print, print_text, print_all, rows, khexdump, ruler, titles, last_line}
use aeon_486_os.Hexdump.Prints.{AllBytes, print_all-text, print_all-append}
use aeon_486_os.Hexdump.Rows.{row_prints, print_row-chunk, dump_row, print_all-row_prints}

-- The first `n` of a list.
abbrev pub take : ℕ → List ℕ → List ℕ
take zero xs = []
take (suc n) [] = []
take (suc n) (x ∷ xs) = x ∷ take n xs

take-drop : (n : ℕ) (xs : List ℕ) → take n xs ++ drop n xs ≡ xs
take-drop zero xs = refl
take-drop (suc n) [] = refl
take-drop (suc n) (x ∷ xs) = ap (λ ys. x ∷ ys) (take-drop n xs)

length-take : (n : ℕ) (xs : List ℕ) → length (take n xs) ≡ min n (length xs)
length-take zero xs = omega arith
length-take (suc n) [] = omega arith
length-take (suc n) (x ∷ xs) = omega (arith, length-take n xs)

drop-drop : (i n : ℕ) (xs : List ℕ) → drop (i + n) xs ≡ drop n (drop i xs)
drop-drop zero n xs = let nil : 0 + n ≡ n = omega arith in rw nil refl
drop-drop (suc i) zero [] = let here : suc i + 0 ≡ suc i = omega arith in rw here refl
drop-drop (suc i) (suc n) [] =
    let here : suc i + suc n ≡ suc (i + suc n) = omega arith in rw here refl
drop-drop (suc i) n (x ∷ xs) =
    let here : suc i + n ≡ suc (i + n) = omega arith in rw here (drop-drop i n xs)

take-AllBytes : (n : ℕ) (xs : List ℕ) → AllBytes xs → AllBytes (take n xs)
unfolding AllBytes
take-AllBytes zero xs small = tt
take-AllBytes (suc n) [] small = tt
take-AllBytes (suc n) (x ∷ xs) (low, small) = (low, take-AllBytes n xs small)

drop-AllBytes : (n : ℕ) (xs : List ℕ) → AllBytes xs → AllBytes (drop n xs)
unfolding AllBytes
drop-AllBytes zero xs small = small
drop-AllBytes (suc n) [] small = tt
drop-AllBytes (suc n) (x ∷ xs) (low, small) = drop-AllBytes n xs small

-- The rows of the dump of `bytes`, sixteen bytes in each, at most `fuel` of them.
unfoldable pub dump_rows : (fuel offset : ℕ) → (bytes : List ℕ) → List ℕ
dump_rows zero offset bytes = []
dump_rows (suc fuel) offset [] = []
dump_rows (suc fuel) offset (byte ∷ bytes) =
    dump_row offset (take 16 (byte ∷ bytes))
    ++ dump_rows fuel (offset + 16) (drop 16 (byte ∷ bytes))

dump_rows-nil : (fuel offset : ℕ) → dump_rows fuel offset [] ≡ []
unfolding dump_rows
dump_rows-nil zero offset = refl
dump_rows-nil (suc fuel) offset = refl

drop-nil : (xs : List ℕ) → length xs ≡ 0 → xs ≡ []
drop-nil [] e = refl
drop-nil (x ∷ xs) e = absurd (omega arith)

length-take-drop : (n : ℕ) (xs : List ℕ) → length (take n xs) + length (drop n xs) ≡ length xs
length-take-drop n xs = sym (length-append (take n xs) (drop n xs)) ∙ ap length (take-drop n xs)

-- A row is full or the last.
take-ends :
    (i len : ℕ) (xs : List ℕ)
    → i + length xs ≡ len
    → (length (take 16 xs) ≡ 16) ⊎ (i + length (take 16 xs) ≡ len)
take-ends i len xs total = elim (Bool-cases (leb 16 (length xs))) [
  | inl full ↦ inl (ground (arith, length-take 16 xs))
  | inr short ↦ inr (ground (arith, length-take 16 xs))
]

-- Where a row stops does not matter when nothing follows it.
dump_rows-offset :
    (fuel i : ℕ) (content : List ℕ)
    → dump_rows fuel (i + length (take 16 content)) (drop 16 content)
      ≡ dump_rows fuel (i + 16) (drop 16 content)
dump_rows-offset fuel i content =
    let size = length-take 16 content in
    let parts = length-take-drop 16 content in
    elim (Bool-cases (leb 16 (length content))) [
      | inl full ↦
          let same : i + length (take 16 content) ≡ i + 16 = ground (arith, size) in rw same refl
      | inr short ↦
          let none_left : length (drop 16 content) ≡ 0 = ground (arith, size, parts) in
          rw (drop-nil (drop 16 content) none_left)
            (dump_rows-nil fuel (i + length (take 16 content)) ∙ sym (dump_rows-nil fuel (i + 16)))
    ]

-- The loop over the rows, from an offset on.
rows_lem :
    (fuel len i : ℕ) (content rest bytes : List ℕ)
    → drop i bytes ≡ content ++ rest
    → i + length content ≡ len
    → length content ≤ fuel
    → len < 2 ^ 32
    → AllBytes content
    → (prints : List Print) × (rows fuel bytes len i ≡ ok prints)
      × (print_all prints ≡ ok (dump_rows fuel i content))
unfolding rows dump_rows print_all
rows_lem zero len i [] rest bytes at total enough fits small =
    let stop : ltb i len ≡ false = ground arith in ([], rw stop refl, refl)
rows_lem zero len i (byte ∷ content) rest bytes at total enough fits small = absurd (omega arith)
rows_lem (suc fuel) len i [] rest bytes at total enough fits small =
    let stop : ltb i len ≡ false = ground arith in ([], rw stop refl, refl)
rows_lem (suc fuel) len i (byte ∷ content) rest bytes at total enough fits small =
    let all = byte ∷ content in
    let chunk = take 16 all in
    let after = drop 16 all in
    let size = length-take 16 all in
    let parts = length-take-drop 16 all in
    let more : ltb i len ≡ true = ground arith in
    let split : drop i bytes ≡ chunk ++ (after ++ rest) =
      at ∙ ap (λ xs. xs ++ rest) (sym (take-drop 16 all)) ∙ append_assoc chunk after rest in
    let next : drop (i + length chunk) bytes ≡ after ++ rest =
      drop-drop i (length chunk) bytes
      ∙ ap (drop (length chunk)) split
      ∙ drop-append chunk (after ++ rest) in
    let (prints, runs, shows) =
      rows_lem fuel len (i + length chunk) after rest bytes next (omega (arith, parts))
        (omega (arith, parts, size)) fits (drop-AllBytes 16 all small) in
    let here =
      print_row-chunk chunk (after ++ rest) bytes len i split (omega (arith, size))
        (omega (arith, parts)) (take-ends i len all total) in
    (
      row_prints i chunk ++ prints,
      rw (more, here, runs) refl,
      print_all-append (row_prints i chunk) prints (dump_row i chunk)
          (dump_rows fuel (i + 16) after)
          (print_all-row_prints i chunk (omega arith) (take-AllBytes 16 all small))
          (shows ∙ ap ok (dump_rows-offset fuel i all)),
    )

-- The text of a dump: the ruler around the titles, a row for each sixteen bytes, and a last line.
unfoldable pub dump : List ℕ → List ℕ
dump content = ruler ++ (titles ++ (ruler ++ (dump_rows (length content) 0 content ++ last_line)))

-- For bytes in memory, of which there are fewer than 2^32, `khexdump` of their number reads no byte
-- behind them and prints the text of their dump: under the titles, for each sixteen of them, a row
-- with the offset in eight hexadecimal digits, each byte in two, the missing ones of the last row as
-- spaces, and each byte as its character, or as a dot where it has none.
pub khexdump_lem :
    (content rest : List ℕ)
    → length content < 2 ^ 32
    → AllBytes content
    → (prints : List Print) × (khexdump (content ++ rest) (length content) ≡ ok prints)
      × (print_all prints ≡ ok (dump content))
unfolding khexdump dump
khexdump_lem content rest fits small =
    let none_before : 0 + length content ≡ length content = omega arith in
    let (prints, runs, shows) =
      rows_lem (length content) (length content) 0 content rest (content ++ rest) refl none_before
        (omega arith) fits small in
    let line = print_all-text ruler refl in
    let names = print_all-text titles refl in
    (
      print_text ruler
          ∷ print_text titles
          ∷ print_text ruler
          ∷ (prints ++ (print_text last_line ∷ [])),
      rw runs refl,
      print_all-append _ _ _ _ line (
          print_all-append _ _ _ _ names (
            print_all-append _ _ _ _ line
              (print_all-append _ _ _ _ shows (print_all-text last_line refl)))),
    )
