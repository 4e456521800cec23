-- ===== src/Display/Output/Text.antt =====
-- How `kvprintf` goes through the text of a format.
use aeon_486_os.Base.{
  ℕ, zero, suc, ◌+◌, ◌-◌, ◌≤◌, ◌<◌, ◌≡◌, refl, arith, ◌∙◌, sym, ap, List, [], ◌∷◌, ◌++◌, map,
  length,
}
use aeon_486_os.Base.{
  Bool, not, ◌&&◌, true, false, ◌==◌, ltb, ok, read, get_elem?, of_option, length-append,
}
use mathlib.Core.List.{append-nil}
use aeon_486_os.Klibc.Strings.{strlen, strlen_from}
use aeon_486_os.Display.Output.{
  Argument, Call, Round, kvprintf_round, kvprintf_from, kvprintf, putc,
}

-- Characters other than 0 and the percent sign.
unfoldable pub IsFormatText : List ℕ → Type 0
IsFormatText [] = Unit
IsFormatText (c ∷ cs) = ((c == 0) ≡ false) × ((c == b'%') ≡ false) × IsFormatText cs

-- The same as a test.
abbrev pub plain : List ℕ → Bool
plain [] = true
plain (c ∷ cs) = not (c == 0) && (not (c == b'%') && plain cs)

pub plain-IsFormatText : (cs : List ℕ) → plain cs ≡ true → IsFormatText cs
unfolding IsFormatText
plain-IsFormatText [] h = tt
plain-IsFormatText (c ∷ cs) h = (ground arith, ground arith, plain-IsFormatText cs (ground arith))

-- No character is 0.
unfoldable pub IsString : List ℕ → Type 0
IsString [] = Unit
IsString (c ∷ cs) = ((c == 0) ≡ false) × IsString cs

pub IsFormatText-IsString : (cs : List ℕ) → IsFormatText cs → IsString cs
unfolding IsFormatText IsString
IsFormatText-IsString [] h = tt
IsFormatText-IsString (c ∷ cs) (char, other, h) = (char, IsFormatText-IsString cs h)

pub IsString-append : (cs ds : List ℕ) → IsString cs → IsString ds → IsString (cs ++ ds)
unfolding IsString
IsString-append [] ds h k = k
IsString-append (c ∷ cs) ds (char, h) k = (char, IsString-append cs ds h k)

strlen_from_lem :
    (cs : List ℕ) (i : ℕ) → IsString cs → strlen_from (cs ++ (0 ∷ [])) i ≡ ok (i + length cs)
unfolding strlen_from IsString
strlen_from_lem [] i h = ap ok (omega arith)
strlen_from_lem (c ∷ cs) i (char, h) =
    let count : i + 1 + length cs ≡ i + suc (length cs) = omega arith in
    rw char (strlen_from_lem cs (i + 1) h ∙ ap ok count)

pub strlen_lem : (cs : List ℕ) → IsString cs → strlen (cs ++ (0 ∷ [])) ≡ ok (length cs)
unfolding strlen
strlen_lem cs h = strlen_from_lem cs 0 h ∙ ap ok (omega arith)

-- The list from position `i` on.
abbrev pub drop : ℕ → List ℕ → List ℕ
drop zero cs = cs
drop (suc i) [] = []
drop (suc i) (c ∷ cs) = drop i cs

abbrev tail : List ℕ → List ℕ
tail [] = []
tail (c ∷ cs) = cs

get_elem?-drop : (i : ℕ) (fmt : List ℕ) → get_elem? (drop i fmt) 0 ≡ get_elem? fmt i
get_elem?-drop zero fmt = refl
get_elem?-drop (suc i) [] = refl
get_elem?-drop (suc i) (c ∷ cs) = get_elem?-drop i cs

tail-drop : (i : ℕ) (fmt : List ℕ) → drop (suc i) fmt ≡ tail (drop i fmt)
tail-drop zero [] = refl
tail-drop zero (c ∷ cs) = refl
tail-drop (suc i) [] = refl
tail-drop (suc i) (c ∷ cs) = tail-drop i cs

pub read-drop :
    (i : ℕ) (fmt : List ℕ) {c : ℕ} {rest : List ℕ} → drop i fmt ≡ c ∷ rest → read fmt i ≡ ok c
unfolding read
read-drop i fmt e = ap of_option (sym (get_elem?-drop i fmt) ∙ ap (λ cs. get_elem? cs 0) e)

pub drop-suc :
    (i : ℕ) (fmt : List ℕ) {c : ℕ} {rest : List ℕ} → drop i fmt ≡ c ∷ rest → drop (i + 1) fmt ≡ rest
drop-suc i fmt e = let next : i + 1 ≡ suc i = omega arith in rw next (tail-drop i fmt ∙ ap tail e)

pub drop-append : (cs ds : List ℕ) → drop (length cs) (cs ++ ds) ≡ ds
drop-append [] ds = refl
drop-append (c ∷ cs) ds = drop-append cs ds

-- A round that runs, inside of the format.
pub kvprintf_from-suc :
    (fuel : ℕ) (fmt : List ℕ) (i num_width len : ℕ) (ap : List Argument) (round : Round)
    (rest : List Call)
    → strlen fmt ≡ ok len
    → i < len
    → kvprintf_round fmt i num_width ap ≡ ok round
    → kvprintf_from fuel fmt (round.i + 1) round.num_width round.arguments ≡ ok rest
    → kvprintf_from (suc fuel) fmt i num_width ap ≡ ok (round.calls ++ rest)
unfolding kvprintf_from
kvprintf_from-suc fuel fmt i num_width len ap round rest size inside runs later =
    let more : ltb i len ≡ true = ground arith in rw (size, more, runs, later) refl

pub kvprintf_from-end :
    (fuel : ℕ) (fmt : List ℕ) (i num_width len : ℕ) (ap : List Argument)
    → strlen fmt ≡ ok len
    → len ≤ i
    → kvprintf_from (suc fuel) fmt i num_width ap ≡ ok []
unfolding kvprintf_from
kvprintf_from-end fuel fmt i num_width len ap size past =
    let stop : ltb i len ≡ false = ground arith in rw (size, stop) refl

pub kvprintf_round-text :
    (fmt : List ℕ) (i num_width c : ℕ) (ap : List Argument)
    → read fmt i ≡ ok c
    → (c == b'%') ≡ false
    → kvprintf_round fmt i num_width ap
      ≡ ok (record { calls = putc c ∷ []; i = i; num_width = num_width; arguments = ap })
unfolding kvprintf_round
kvprintf_round-text fmt i num_width c ap stored other = rw (stored, other) refl

-- Text in a format is put out character by character, and then what follows it.
pub kvprintf_from-text :
    (text : List ℕ) (fuel : ℕ) (fmt rest : List ℕ) (i num_width len : ℕ) (ap : List Argument)
    (later : List Call)
    → IsFormatText text
    → strlen fmt ≡ ok len
    → drop i fmt ≡ text ++ rest
    → i + length text ≤ len
    → length text ≤ fuel
    → kvprintf_from (fuel - length text) fmt (i + length text) num_width ap ≡ ok later
    → kvprintf_from fuel fmt i num_width ap ≡ ok (map putc text ++ later)
unfolding IsFormatText
kvprintf_from-text [] fuel fmt rest i num_width len ap later text_ok size at room enough runs =
    let here : i + 0 ≡ i = omega arith in
    let all : fuel - 0 ≡ fuel = omega arith in rw here at (rw all at runs)
kvprintf_from-text (c ∷ text) zero fmt rest i num_width len ap later text_ok size at room enough
      runs =
    absurd (omega arith)
kvprintf_from-text (c ∷ text) (suc fuel) fmt rest i num_width len ap later (char, other, plain) size
      at room enough runs =
    let stored = read-drop i fmt at in
    let next : i + suc (length text) ≡ i + 1 + length text = omega arith in
    let left : suc fuel - suc (length text) ≡ fuel - length text = omega arith in
    kvprintf_from-suc fuel fmt i num_width len ap
      (record { calls = putc c ∷ []; i = i; num_width = num_width; arguments = ap })
      (map putc text ++ later) size (omega arith)
      (kvprintf_round-text fmt i num_width c ap stored other)
      (kvprintf_from-text text fuel fmt rest (i + 1) num_width len ap later plain size
        (drop-suc i fmt at) (omega arith) (omega arith) (rw next at (rw left at runs)))

-- A format without directives is put out character by character, whatever the arguments.
pub kvprintf_text :
    (text : List ℕ) (ap : List Argument)
    → IsFormatText text
    → kvprintf (text ++ (0 ∷ [])) ap ≡ ok (map putc text)
unfolding kvprintf
kvprintf_text text ap plain =
    let fmt = text ++ (0 ∷ []) in
    let size = strlen_lem text (IsFormatText-IsString text plain) in
    let rounds : length fmt ≡ length text + 1 = omega (arith, length-append text (0 ∷ [])) in
    let left : suc (length fmt) - length text ≡ suc 1 = omega arith in
    kvprintf_from-text text (suc (length fmt)) fmt (0 ∷ []) 0 0 (length text) ap [] plain size refl
      (omega arith) (omega arith)
      (rw left (kvprintf_from-end 1 fmt (0 + length text) 0 (length text) ap size (omega arith)))
    ∙ rw (append-nil (map putc text)) refl
