-- ===== src/Display/Output.antt =====
-- kernel/drivers/display/display.c. What `kvprintf` does is the list of the calls of `display_puts`
-- and `display_putc`, each of which goes to every registered display in turn. The arguments are a
-- list; to ask for one that is not there, or that has the other type, is `fault`. The mutex around the
-- body is in Display.Printing.
pub mod Text
pub mod Shown
pub mod Digits
pub mod Format
pub mod Fields
pub mod Rounds
pub mod Render
use aeon_486_os.Base.{
  ℕ, zero, suc, ◌+◌, ◌-◌, List, [], ◌∷◌, ◌++◌, length, replicate, map, Option, none, some,
}
use aeon_486_os.Base.{ltb, leb, ◌==◌, ◌||◌, if◌then◌else◌, Outcome, ok, fault, ◌>>=◌, read, bit_and}
use aeon_486_os.Klibc.Strings.{strlen, itoa, itoa_s}

pub data Argument : Type 0 where
  string : List ℕ → Argument
  int : ℕ → Argument

pub data Call : Type 0 where
  puts : List ℕ → Call
  putc : ℕ → Call

abbrev pub max_displays : ℕ
max_displays = 8

-- The registered displays, each by a number of its own.
unfoldable pub display_register : List ℕ → ℕ → Outcome (List ℕ)
display_register s_displays display =
    if ltb (length s_displays) max_displays then ok (s_displays ++ (display ∷ [])) else fault

-- `display_puts` and `display_putc`: which display gets which call, in order.
unfoldable pub broadcast : List ℕ → Call → List (ℕ × Call)
broadcast s_displays call = map (λ display. (display, call)) s_displays

-- `va_arg` of a string and of a number, with the arguments behind it.
unfoldable pub next_string : List Argument → Outcome (List ℕ × List Argument)
next_string [] = fault
next_string (string s ∷ ap) = ok (s, ap)
next_string (int n ∷ ap) = fault

unfoldable pub next_int : List Argument → Outcome (ℕ × List Argument)
next_int [] = fault
next_int (string s ∷ ap) = fault
next_int (int n ∷ ap) = ok (n, ap)

-- What a round of the loop leaves: its calls, and the variables of the loop. A negative `num_width`
-- does what 0 does.
pub record Round : Type 0 where
  pub calls : List Call
  pub i : ℕ
  pub num_width : ℕ
  pub arguments : List Argument

-- `fmt[i + 2] - '0'` of a signed `char`.
unfoldable pub width_of : ℕ → ℕ
width_of c = if leb 128 c then 0 else c - b'0'

-- The padding and the number of `%i`, `%d` and `%x`.
unfoldable pub padded : (num_width : ℕ) → (str : List ℕ) → List Call
padded num_width str = replicate (num_width - length str) (putc b'0') ++ (puts str ∷ [])

abbrev pub or_empty : Option (List ℕ) → List ℕ
or_empty none = []
or_empty (some str) = str

-- The second `switch`, on the character `d` at `i + 1`.
unfoldable pub directive : (d i num_width : ℕ) → List Argument → Outcome Round
directive d i num_width ap =
    if d == b's'
    then (do
      taken ← next_string ap
      ok (record {
        calls = puts (taken.0) ∷ [];
        i = i + 1;
        num_width = num_width;
        arguments = taken.1;
      }))
    else if d == b'i' || d == b'd'
    then (do
      taken ← next_int ap
      str ← itoa_s (taken.0) 10
      ok (record {
        calls = padded num_width (or_empty str);
        i = i + 1;
        num_width = num_width;
        arguments = taken.1;
      }))
    else if d == b'x'
    then (do
      taken ← next_int ap
      str ← itoa (taken.0) 16
      ok (record {
        calls = padded num_width str;
        i = i + 1;
        num_width = num_width;
        arguments = taken.1;
      }))
    else if d == b'c'
    then (do
      taken ← next_int ap
      ok (record {
        calls = putc (bit_and (taken.0) 0xFF) ∷ [];
        i = i + 1;
        num_width = num_width;
        arguments = taken.1;
      }))
    else ok (record { calls = []; i = i; num_width = num_width; arguments = ap })

-- The body of the loop.
unfoldable pub kvprintf_round : (fmt : List ℕ) → (i num_width : ℕ) → List Argument → Outcome Round
kvprintf_round fmt i num_width ap = do
  c ← read fmt i
  if c == b'%'
      then (do
        flag ← read fmt (i + 1)
        if flag == b'0'
            then (do
              width ← read fmt (i + 2)
              d ← read fmt (i + 3)
              directive d (i + 2) (width_of width) ap)
            else directive flag i num_width ap)
      else ok (record { calls = putc c ∷ []; i = i; num_width = num_width; arguments = ap })

-- The loop, with `fuel` rounds at most. Each round moves `i` on.
unfoldable pub kvprintf_from :
    (fuel : ℕ) → (fmt : List ℕ) → (i num_width : ℕ) → List Argument → Outcome (List Call)
kvprintf_from zero fmt i num_width ap = fault
kvprintf_from (suc fuel) fmt i num_width ap = do
  len ← strlen fmt
  if ltb i len
      then (do
        round ← kvprintf_round fmt i num_width ap
        rest ← kvprintf_from fuel fmt (round.i + 1) round.num_width round.arguments
        ok (round.calls ++ rest))
      else ok []

unfoldable pub kvprintf : (fmt : List ℕ) → List Argument → Outcome (List Call)
unfolding kvprintf_from
kvprintf fmt ap = kvprintf_from (suc (length fmt)) fmt 0 0 ap

-- The characters that reach each display.
unfoldable pub shown : List Call → List ℕ
shown [] = []
shown (puts s ∷ calls) = s ++ shown calls
shown (putc c ∷ calls) = c ∷ shown calls
