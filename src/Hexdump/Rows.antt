-- ===== src/Hexdump/Rows.antt =====
-- The loops of a row of `khexdump`, on the bytes that the row takes.
use aeon_486_os.Base.{
  ℕ, zero, suc, ◌+◌, ◌-◌, ◌≤◌, ◌<◌, ◌^◌, ◌⊎◌, ◌≡◌, refl, arith, ◌∙◌, ap, List, [], ◌∷◌, ◌++◌, map,
  codes, replicate, length,
}
use aeon_486_os.Base.{true, false, ltb, ok}
use aeon_486_os.Klibc.Strings.Digits.{digits_of}
use aeon_486_os.Display.Output.Text.{drop, read-drop, drop-suc}
use aeon_486_os.Hexdump.{
  Print, print_text, print_offset, print_byte, print_char, print_all, byte_cells, text_cells,
  print_row,
}
use aeon_486_os.Hexdump.Prints.{
  concat, AllBytes, glyph, print_all-text, print_all-append, print_all-replicate, print_all-map,
  print_all-byte, print_all-offset, print_all-char,
}

byte_cells-chunk :
    (chunk rest bytes : List ℕ) (rounds len i c : ℕ)
    → drop i bytes ≡ chunk ++ rest
    → length chunk ≤ rounds
    → i + length chunk ≤ len
    → (length chunk ≡ rounds) ⊎ (i + length chunk ≡ len)
    → byte_cells rounds bytes len i c
      ≡ ok (record { prints = map print_byte chunk; i = i + length chunk; c = c + length chunk })
unfolding byte_cells
byte_cells-chunk [] rest bytes zero len i c at fits inside ends =
    let at_i : i + 0 ≡ i = omega arith in let at_c : c + 0 ≡ c = omega arith in rw (at_i, at_c) refl
byte_cells-chunk [] rest bytes (suc rounds) len i c at fits inside ends =
    let at_i : i + 0 ≡ i = omega arith in
    let at_c : c + 0 ≡ c = omega arith in
    let stop : ltb i len ≡ false = ground (arith, ends) in rw (stop, at_i, at_c) refl
byte_cells-chunk (byte ∷ chunk) rest bytes zero len i c at fits inside ends = absurd (omega arith)
byte_cells-chunk (byte ∷ chunk) rest bytes (suc rounds) len i c at fits inside ends =
    let more : ltb i len ≡ true = ground arith in
    let later =
      byte_cells-chunk chunk rest bytes rounds len (i + 1) (c + 1) (drop-suc i bytes at)
        (omega arith) (omega arith) (ground (arith, ends)) in
    let at_i : i + suc (length chunk) ≡ i + 1 + length chunk = omega arith in
    let at_c : c + suc (length chunk) ≡ c + 1 + length chunk = omega arith in
    rw (more, read-drop i bytes at, later, at_i, at_c) refl

text_cells-chunk :
    (chunk rest bytes : List ℕ) (start c : ℕ)
    → drop (start + c) bytes ≡ chunk ++ rest
    → text_cells (length chunk) bytes start c ≡ ok (map print_char chunk)
unfolding text_cells
text_cells-chunk [] rest bytes start c at = refl
text_cells-chunk (byte ∷ chunk) rest bytes start c at =
    let next : start + (c + 1) ≡ start + c + 1 = omega arith in
    let later : drop (start + (c + 1)) bytes ≡ chunk ++ rest =
      rw next (drop-suc (start + c) bytes at) in
    rw (read-drop (start + c) bytes at, text_cells-chunk chunk rest bytes start (c + 1) later) refl

-- The calls of a row that takes the bytes of `chunk`.
abbrev pub row_prints : (start : ℕ) → (chunk : List ℕ) → List Print
row_prints start chunk =
    print_offset start
    ∷ (map print_byte chunk
        ++ (replicate (16 - length chunk) (print_text (codes "   "))
            ++ (print_text (codes "|")
                ∷ (map print_char chunk
                    ++ (replicate (16 - length chunk) (print_text (codes " "))
                        ++ (print_text (codes "|\n") ∷ []))))))

pub print_row-chunk :
    (chunk rest bytes : List ℕ) (len i : ℕ)
    → drop i bytes ≡ chunk ++ rest
    → length chunk ≤ 16
    → i + length chunk ≤ len
    → (length chunk ≡ 16) ⊎ (i + length chunk ≡ len)
    → print_row bytes len i
      ≡ ok (record { prints = row_prints i chunk; i = i + length chunk; c = length chunk })
unfolding print_row
print_row-chunk chunk rest bytes len i at fits inside ends =
    let cells = byte_cells-chunk chunk rest bytes 16 len i 0 at fits inside ends in
    let count : 0 + length chunk ≡ length chunk = omega arith in
    let begin : i + 0 ≡ i = omega arith in
    let text = text_cells-chunk chunk rest bytes i 0 (rw begin at) in rw (cells, count, text) refl

-- A row of the dump, as a text: the offset, the bytes as digits, the bytes as characters.
unfoldable pub dump_row : (offset : ℕ) → (chunk : List ℕ) → List ℕ
dump_row offset chunk =
    (digits_of 16 8 offset ++ codes "|")
    ++ (concat (map (λ byte. digits_of 16 2 byte ++ codes " ") chunk)
        ++ (concat (replicate (16 - length chunk) (codes "   "))
            ++ (codes "|"
                ++ (map glyph chunk
                    ++ (concat (replicate (16 - length chunk) (codes " ")) ++ codes "|\n")))))

concat-glyphs : (chunk : List ℕ) → concat (map (λ byte. glyph byte ∷ []) chunk) ≡ map glyph chunk
concat-glyphs [] = refl
concat-glyphs (byte ∷ chunk) = ap (λ cs. glyph byte ∷ cs) (concat-glyphs chunk)

pub print_all-row_prints :
    (start : ℕ) (chunk : List ℕ)
    → start < 2 ^ 32
    → AllBytes chunk
    → print_all (row_prints start chunk) ≡ ok (dump_row start chunk)
unfolding dump_row
print_all-row_prints start chunk fits small =
    let gap = 16 - length chunk in
    let bar = print_all-text (codes "|") refl in
    let missing =
      print_all-replicate gap (print_text (codes " ")) (codes " ")
        (print_all-text (codes " ") refl) in
    let absent =
      print_all-replicate gap (print_text (codes "   ")) (codes "   ")
        (print_all-text (codes "   ") refl) in
    let glyphs =
      print_all-map chunk print_char (λ byte. glyph byte ∷ []) print_all-char small
      ∙ ap ok (concat-glyphs chunk) in
    let digits =
      print_all-map chunk print_byte (λ byte. digits_of 16 2 byte ++ codes " ") print_all-byte
        small in
    print_all-append _ _ _ _ (print_all-offset start fits) (
      print_all-append _ _ _ _ digits (
        print_all-append _ _ _ _ absent (
          print_all-append _ _ _ _ bar (
            print_all-append _ _ _ _ glyphs
              (print_all-append _ _ _ _ missing (print_all-text (codes "|\n") refl))))))
