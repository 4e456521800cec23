-- ===== src/Display/Output/Render.antt =====
-- `kvprintf` shows what its format means.
use aeon_486_os.Base.{
  ℕ, zero, suc, ◌+◌, ◌-◌, ◌<◌, ◌≡◌, refl, arith, ◌∙◌, List, [], ◌∷◌, ◌++◌, length,
}
use aeon_486_os.Base.{false, ◌==◌, ok, length-append}
use mathlib.Core.List.{append_assoc}
use aeon_486_os.Klibc.Strings.{strlen}
use aeon_486_os.Display.Output.{Argument, kvprintf, shown}
use aeon_486_os.Display.Output.Text.{
  IsString, IsFormatText-IsString, IsString-append, strlen_lem, drop, drop-suc, kvprintf_from-end,
}
use aeon_486_os.Display.Output.Format.{
  Letter, letter_s, letter_i, letter_d, letter_x, letter_c, Piece, text, field, wide, code_of,
  encode, IsFormat, AllFit, others, render,
}
use aeon_486_os.Display.Output.Fields.{show_calls}
use aeon_486_os.Display.Output.Rounds.{
  AllFit-others, Shows, kvprintf_from-field, kvprintf_from-wide, kvprintf_from-chars, drop-plus,
}

-- The loop from a position where some pieces begin.
kvprintf_from-pieces :
    (pieces : List Piece) (fuel : ℕ) (fmt : List ℕ) (i num_width len : ℕ)
    (arguments : List Argument)
    → IsFormat pieces
    → AllFit arguments
    → strlen fmt ≡ ok len
    → drop i fmt ≡ encode pieces ++ (0 ∷ [])
    → i + length (encode pieces) ≡ len
    → length (encode pieces) < fuel
    → Shows fuel fmt i num_width arguments (render pieces num_width arguments)
unfolding IsFormat encode render show_calls shown
kvprintf_from-pieces pieces zero fmt i num_width len arguments good fit size at total enough =
    absurd (omega arith)
kvprintf_from-pieces [] (suc fuel) fmt i num_width len arguments good fit size at total enough =
    rw (kvprintf_from-end fuel fmt i num_width len arguments size (omega arith)) refl
kvprintf_from-pieces (text cs ∷ pieces) (suc fuel) fmt i num_width len arguments (plain, good) fit
      size at total enough =
    let n = length-append cs (encode pieces) in
    let at' : drop i fmt ≡ cs ++ (encode pieces ++ (0 ∷ [])) =
      at ∙ append_assoc cs (encode pieces) (0 ∷ []) in
    kvprintf_from-chars cs (suc fuel) fmt (encode pieces ++ (0 ∷ [])) i num_width len arguments
      (render pieces num_width arguments) plain size at' (omega (arith, n)) (omega (arith, n))
      (kvprintf_from-pieces pieces (suc fuel - length cs) fmt (i + length cs) num_width len
        arguments good fit size (drop-plus cs i fmt (encode pieces ++ (0 ∷ [])) at')
        (omega (arith, n)) (omega (arith, n)))
kvprintf_from-pieces (field l ∷ pieces) (suc fuel) fmt i num_width len arguments good fit size at
      total enough =
    let after = encode pieces ++ (0 ∷ []) in
    kvprintf_from-field l pieces fuel fmt after i num_width len arguments fit size (omega arith) at
      (kvprintf_from-pieces pieces fuel fmt (i + 1 + 1) num_width len (others arguments) good
        (AllFit-others arguments fit) size (drop-suc (i + 1) fmt (drop-suc i fmt at)) (omega arith)
        (omega arith))
kvprintf_from-pieces (wide width l ∷ pieces) (suc fuel) fmt i num_width len arguments (small, good)
      fit size at total enough =
    let after = encode pieces ++ (0 ∷ []) in
    let place : i + 2 + 1 + 1 ≡ i + 1 + 1 + 1 + 1 = omega arith in
    let at' =
      drop-suc (i + 1 + 1 + 1) fmt
        (drop-suc (i + 1 + 1) fmt (drop-suc (i + 1) fmt (drop-suc i fmt at))) in
    kvprintf_from-wide width l pieces fuel fmt after i num_width len arguments fit size
      (omega arith) at small
      (kvprintf_from-pieces pieces fuel fmt (i + 2 + 1 + 1) width len (others arguments) good
        (AllFit-others arguments fit) size (rw place at') (omega arith) (omega arith))

code_of-IsString : (l : Letter) → (code_of l == 0) ≡ false
code_of-IsString letter_s = refl
code_of-IsString letter_i = refl
code_of-IsString letter_d = refl
code_of-IsString letter_x = refl
code_of-IsString letter_c = refl

encode-IsString : (pieces : List Piece) → IsFormat pieces → IsString (encode pieces)
unfolding IsFormat encode IsString
encode-IsString [] good = tt
encode-IsString (text cs ∷ pieces) (plain, good) =
    IsString-append cs (encode pieces) (IsFormatText-IsString cs plain)
      (encode-IsString pieces good)
encode-IsString (field l ∷ pieces) good = (refl, (code_of-IsString l, encode-IsString pieces good))
encode-IsString (wide width l ∷ pieces) (small, good) =
    let digit : (b'0' + width == 0) ≡ false = ground arith in
    (refl, (refl, (digit, (code_of-IsString l, encode-IsString pieces good))))

-- For a format of any pieces of text without 0 and percent signs, fields `%s`, `%i`, `%d`, `%x`,
-- `%c`, and fields `%0WL` with a digit as width, and for any arguments, the numbers below 2^32,
-- `kvprintf` shows what the format means: the text, and for each field its argument, a number in
-- its shortest text in base 10 or 16, filled up with zeros to the width that was set last, and a
-- character as its low byte. Where an argument is missing or of the other type, it is a fault.
pub kvprintf_lem :
    (pieces : List Piece) (arguments : List Argument)
    → IsFormat pieces
    → AllFit arguments
    → show_calls (kvprintf (encode pieces ++ (0 ∷ [])) arguments) ≡ render pieces 0 arguments
unfolding kvprintf
kvprintf_lem pieces arguments good fit =
    let fmt = encode pieces ++ (0 ∷ []) in
    let rounds = length-append (encode pieces) (0 ∷ []) in
    kvprintf_from-pieces pieces (suc (length fmt)) fmt 0 0 (length (encode pieces)) arguments good
      fit (strlen_lem (encode pieces) (encode-IsString pieces good)) refl (omega arith)
      (omega (arith, rounds))
