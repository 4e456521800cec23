-- ===== src/Display/Output/Format.antt =====
-- What a format of `kvprintf` means: pieces of text and fields, each field with the text of an argument.
use aeon_486_os.Base.{
  ℕ, ◌+◌, ◌-◌, ◌^◌, ◌<◌, List, [], ◌∷◌, ◌++◌, length, replicate, bit_and, Outcome, ok, panic, fault,
  ◌>>=◌,
}
use aeon_486_os.Klibc.Strings.Shortest.{numeral}
use aeon_486_os.Display.Output.{Argument, string, int}
use aeon_486_os.Display.Output.Text.{IsFormatText}

-- The letters behind a percent sign.
pub data Letter : Type 0 where
  letter_s letter_i letter_d letter_x letter_c : Letter

-- Text, `%L`, and `%0WL` with one digit W.
pub data Piece : Type 0 where
  text : List ℕ → Piece
  field : Letter → Piece
  wide : (width : ℕ) → Letter → Piece

abbrev pub code_of : Letter → ℕ
code_of letter_s = b's'
code_of letter_i = b'i'
code_of letter_d = b'd'
code_of letter_x = b'x'
code_of letter_c = b'c'

-- The format that is written for some pieces.
unfoldable pub encode : List Piece → List ℕ
encode [] = []
encode (text cs ∷ pieces) = cs ++ encode pieces
encode (field l ∷ pieces) = b'%' ∷ code_of l ∷ encode pieces
encode (wide width l ∷ pieces) = b'%' ∷ b'0' ∷ (b'0' + width) ∷ code_of l ∷ encode pieces

-- Text without 0 and percent signs, and widths of one digit.
unfoldable pub IsFormat : List Piece → Type 0
IsFormat [] = Unit
IsFormat (text cs ∷ pieces) = IsFormatText cs × IsFormat pieces
IsFormat (field l ∷ pieces) = IsFormat pieces
IsFormat (wide width l ∷ pieces) = (width < 10) × IsFormat pieces

unfoldable pub AllFit : List Argument → Type 0
AllFit [] = Unit
AllFit (string s ∷ arguments) = AllFit arguments
AllFit (int n ∷ arguments) = (n < 2 ^ 32) × AllFit arguments

abbrev pub filled_up : (width : ℕ) → List ℕ → List ℕ
filled_up width digits = replicate (width - length digits) b'0' ++ digits

-- The text of a field for a number and for a string.
abbrev pub number_text : Letter → (width n : ℕ) → Outcome (List ℕ)
number_text letter_s width n = fault
number_text letter_i width n = ok (filled_up width (numeral 10 n))
number_text letter_d width n = ok (filled_up width (numeral 10 n))
number_text letter_x width n = ok (filled_up width (numeral 16 n))
number_text letter_c width n = ok (bit_and n 0xFF ∷ [])

abbrev pub string_text : Letter → List ℕ → Outcome (List ℕ)
string_text letter_s s = ok s
string_text letter_i s = fault
string_text letter_d s = fault
string_text letter_x s = fault
string_text letter_c s = fault

-- The text of a field, which takes the first argument.
unfoldable pub field_text : Letter → (width : ℕ) → List Argument → Outcome (List ℕ)
field_text l width [] = fault
field_text l width (string s ∷ arguments) = string_text l s
field_text l width (int n ∷ arguments) = number_text l width n

abbrev pub others : List Argument → List Argument
others [] = []
others (a ∷ arguments) = arguments

-- A text in front of what follows it.
unfoldable pub in_front : List ℕ → Outcome (List ℕ) → Outcome (List ℕ)
in_front t (ok u) = ok (t ++ u)
in_front t (panic p) = panic p
in_front t fault = fault

-- A width holds for its field and for all fields behind it, up to the next width.
unfoldable pub render : List Piece → (num_width : ℕ) → List Argument → Outcome (List ℕ)
unfolding in_front field_text
render [] num_width arguments = ok []
render (text cs ∷ pieces) num_width arguments = in_front cs (render pieces num_width arguments)
render (field l ∷ pieces) num_width arguments = field_text l num_width arguments >>= λ t.
    in_front t (render pieces num_width (others arguments))
render (wide width l ∷ pieces) num_width arguments =
    field_text l width arguments >>= λ t. in_front t (render pieces width (others arguments))
