-- ===== src/Display/Output/Rounds.antt =====
-- The rounds of `kvprintf` at the pieces of a format.
use aeon_486_os.Base.{
  ℕ, zero, suc, ◌+◌, ◌-◌, ◌≤◌, ◌<◌, ◌≡◌, refl, arith, ◌∙◌, sym, ap, List, [], ◌∷◌, ◌++◌, length,
}
use aeon_486_os.Base.{false, ◌==◌, leb, Outcome, ok, ◌>>=◌, read}
use aeon_486_os.Klibc.Strings.{strlen}
use aeon_486_os.Display.Output.{
  Argument, string, int, Call, kvprintf_round, kvprintf_from, directive, shown, width_of,
}
use aeon_486_os.Display.Output.Text.{IsFormatText, drop, drop-suc, read-drop, kvprintf_round-text}
use aeon_486_os.Display.Output.Format.{
  Letter, letter_s, letter_i, letter_d, letter_x, letter_c, Piece, field, wide, code_of, AllFit,
  field_text, others, in_front, render,
}
use aeon_486_os.Display.Output.Fields.{
  show_calls, in_front_append, in_front_nil, kvprintf_from-then, directive-field,
}

-- The round at `%L`.
kvprintf_round-field :
    (l : Letter) (fmt after : List ℕ) (i num_width : ℕ) (arguments : List Argument)
    → drop i fmt ≡ b'%' ∷ code_of l ∷ after
    → kvprintf_round fmt i num_width arguments ≡ directive (code_of l) i num_width arguments
unfolding kvprintf_round
kvprintf_round-field letter_s fmt after i num_width arguments at =
    rw (read-drop i fmt at, read-drop (i + 1) fmt (drop-suc i fmt at)) refl
kvprintf_round-field letter_i fmt after i num_width arguments at =
    rw (read-drop i fmt at, read-drop (i + 1) fmt (drop-suc i fmt at)) refl
kvprintf_round-field letter_d fmt after i num_width arguments at =
    rw (read-drop i fmt at, read-drop (i + 1) fmt (drop-suc i fmt at)) refl
kvprintf_round-field letter_x fmt after i num_width arguments at =
    rw (read-drop i fmt at, read-drop (i + 1) fmt (drop-suc i fmt at)) refl
kvprintf_round-field letter_c fmt after i num_width arguments at =
    rw (read-drop i fmt at, read-drop (i + 1) fmt (drop-suc i fmt at)) refl

-- The round at `%0WL`.
kvprintf_round-wide :
    (width : ℕ) (l : Letter) (fmt after : List ℕ) (i num_width : ℕ) (arguments : List Argument)
    → drop i fmt ≡ b'%' ∷ b'0' ∷ (b'0' + width) ∷ code_of l ∷ after
    → width < 10
    → kvprintf_round fmt i num_width arguments ≡ directive (code_of l) (i + 2) width arguments
unfolding kvprintf_round width_of
kvprintf_round-wide width l fmt after i num_width arguments at small =
    let at1 = drop-suc i fmt at in
    let at2 = drop-suc (i + 1) fmt at1 in
    let at3 = drop-suc (i + 1 + 1) fmt at2 in
    let two : i + 1 + 1 ≡ i + 2 = omega arith in
    let three : i + 1 + 1 + 1 ≡ i + 3 = omega arith in
    let digit : read fmt (i + 2) ≡ ok (b'0' + width) = rw two at (read-drop (i + 1 + 1) fmt at2) in
    let d : read fmt (i + 3) ≡ ok (code_of l) = rw three at (read-drop (i + 1 + 1 + 1) fmt at3) in
    let sign : leb 128 (b'0' + width) ≡ false = ground arith in
    let value_of : b'0' + width - b'0' ≡ width = omega arith in
    rw (read-drop i fmt at, read-drop (i + 1) fmt at1, digit, d, sign, value_of) refl

-- The rounds from position `i` on, for what is behind a field.
abbrev from_there : (fuel : ℕ) (fmt : List ℕ) → ℕ → ℕ → List Argument → Outcome (List Call)
from_there fuel fmt i num_width arguments = kvprintf_from fuel fmt (i + 1) num_width arguments

pub AllFit-others : (arguments : List Argument) → AllFit arguments → AllFit (others arguments)
unfolding AllFit
AllFit-others [] fit = fit
AllFit-others (string s ∷ arguments) fit = fit
AllFit-others (int n ∷ arguments) (first, fit) = fit

-- What the loop shows from position `i` on, and what it is to show.
abbrev pub Shows :
    (fuel : ℕ) (fmt : List ℕ) (i num_width : ℕ) → List Argument → Outcome (List ℕ) → Type 0
Shows fuel fmt i num_width arguments o =
    show_calls (kvprintf_from fuel fmt i num_width arguments) ≡ o

pub kvprintf_from-field :
    (l : Letter) (pieces : List Piece) (fuel : ℕ) (fmt after : List ℕ) (i num_width len : ℕ)
    (arguments : List Argument)
    → AllFit arguments
    → strlen fmt ≡ ok len
    → i < len
    → drop i fmt ≡ b'%' ∷ code_of l ∷ after
    → Shows fuel fmt
        (i + 1 + 1)
        num_width
        (others arguments)
        (render pieces num_width (others arguments))
    → Shows (suc fuel) fmt i num_width arguments (render (field l ∷ pieces) num_width arguments)
unfolding render
kvprintf_from-field l pieces fuel fmt after i num_width len arguments fit size inside at ih =
    kvprintf_from-then fuel fmt i num_width len arguments size inside
    ∙ rw (kvprintf_round-field l fmt after i num_width arguments at)
        (directive-field l i num_width arguments (from_there fuel fmt) fit)
    ∙ ap (λ o. field_text l num_width arguments >>= λ t. in_front t o) ih

pub kvprintf_from-wide :
    (width : ℕ) (l : Letter) (pieces : List Piece) (fuel : ℕ) (fmt after : List ℕ)
    (i num_width len : ℕ) (arguments : List Argument)
    → AllFit arguments
    → strlen fmt ≡ ok len
    → i < len
    → drop i fmt ≡ b'%' ∷ b'0' ∷ (b'0' + width) ∷ code_of l ∷ after
    → width < 10
    → Shows fuel fmt
        (i + 2 + 1 + 1)
        width
        (others arguments)
        (render pieces width (others arguments))
    → Shows
        (suc fuel)
        fmt
        i
        num_width
        arguments
        (render (wide width l ∷ pieces) num_width arguments)
unfolding render
kvprintf_from-wide width l pieces fuel fmt after i num_width len arguments fit size inside at small
      ih =
    kvprintf_from-then fuel fmt i num_width len arguments size inside
    ∙ rw (kvprintf_round-wide width l fmt after i num_width arguments at small)
        (directive-field l (i + 2) width arguments (from_there fuel fmt) fit)
    ∙ ap (λ o. field_text l width arguments >>= λ t. in_front t o) ih

-- A character of text in front of what follows.
kvprintf_from-char :
    (c : ℕ) (fuel : ℕ) (fmt after : List ℕ) (i num_width len : ℕ) (arguments : List Argument)
    (o : Outcome (List ℕ))
    → strlen fmt ≡ ok len
    → i < len
    → drop i fmt ≡ c ∷ after
    → (c == b'%') ≡ false
    → Shows fuel fmt (i + 1) num_width arguments o
    → Shows (suc fuel) fmt i num_width arguments (in_front (c ∷ []) o)
unfolding shown
kvprintf_from-char c fuel fmt after i num_width len arguments o size inside at other ih =
    kvprintf_from-then fuel fmt i num_width len arguments size inside
    ∙ rw (kvprintf_round-text fmt i num_width c arguments (read-drop i fmt at) other)
        (ap (in_front (c ∷ [])) ih)

pub kvprintf_from-chars :
    (cs : List ℕ) (fuel : ℕ) (fmt after : List ℕ) (i num_width len : ℕ) (arguments : List Argument)
    (o : Outcome (List ℕ))
    → IsFormatText cs
    → strlen fmt ≡ ok len
    → drop i fmt ≡ cs ++ after
    → i + length cs ≤ len
    → length cs ≤ fuel
    → Shows (fuel - length cs) fmt (i + length cs) num_width arguments o
    → Shows fuel fmt i num_width arguments (in_front cs o)
unfolding IsFormatText
kvprintf_from-chars [] fuel fmt after i num_width len arguments o plain size at room enough ih =
    let here : i + 0 ≡ i = omega arith in
    let all : fuel - 0 ≡ fuel = omega arith in rw (in_front_nil o) (rw here at (rw all at ih))
kvprintf_from-chars (c ∷ cs) zero fmt after i num_width len arguments o plain size at room enough
      ih =
    absurd (omega arith)
kvprintf_from-chars (c ∷ cs) (suc fuel) fmt after i num_width len arguments o (char, other, plain)
      size at room enough ih =
    let next : i + suc (length cs) ≡ i + 1 + length cs = omega arith in
    let left : suc fuel - suc (length cs) ≡ fuel - length cs = omega arith in
    rw (sym (in_front_append (c ∷ []) cs o)) (
      kvprintf_from-char c fuel fmt (cs ++ after) i num_width len arguments (in_front cs o) size
        (omega arith) at other
        (kvprintf_from-chars cs fuel fmt after (i + 1) num_width len arguments o plain size
          (drop-suc i fmt at) (omega arith) (omega arith) (rw next at (rw left at ih))))

pub drop-plus :
    (cs : List ℕ) (i : ℕ) (fmt after : List ℕ)
    → drop i fmt ≡ cs ++ after
    → drop (i + length cs) fmt ≡ after
drop-plus [] i fmt after at = let here : i + 0 ≡ i = omega arith in rw here at
drop-plus (c ∷ cs) i fmt after at =
    let next : i + suc (length cs) ≡ i + 1 + length cs = omega arith in
    rw next (drop-plus cs (i + 1) fmt after (drop-suc i fmt at))
