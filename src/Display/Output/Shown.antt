-- ===== src/Display/Output/Shown.antt =====
-- The characters that calls show.
use aeon_486_os.Base.{
  ℕ, zero, suc, ◌-◌, ◌≡◌, refl, ◌∙◌, sym, ap, List, [], ◌∷◌, ◌++◌, map, length, replicate,
}
use mathlib.Core.List.{append_assoc, append-nil}
use aeon_486_os.Display.Output.{Call, putc, puts, shown, padded}

pub shown-append : (calls later : List Call) → shown (calls ++ later) ≡ shown calls ++ shown later
unfolding shown
shown-append [] later = refl
shown-append (puts s ∷ calls) later =
    ap (λ cs. s ++ cs) (shown-append calls later) ∙ sym (append_assoc s (shown calls) (shown later))
shown-append (putc c ∷ calls) later = ap (λ cs. c ∷ cs) (shown-append calls later)

pub shown-text : (text : List ℕ) → shown (map putc text) ≡ text
unfolding shown
shown-text [] = refl
shown-text (c ∷ text) = ap (λ cs. c ∷ cs) (shown-text text)

shown-zeros : (n : ℕ) → shown (replicate n (putc b'0')) ≡ replicate n b'0'
unfolding shown
shown-zeros zero = refl
shown-zeros (suc n) = ap (λ cs. b'0' ∷ cs) (shown-zeros n)

shown-puts : (str : List ℕ) → shown (puts str ∷ []) ≡ str
unfolding shown
shown-puts str = append-nil str

pub shown-padded :
    (width : ℕ) (str : List ℕ)
    → shown (padded width str) ≡ replicate (width - length str) b'0' ++ str
unfolding padded
shown-padded width str =
    shown-append (replicate (width - length str) (putc b'0')) (puts str ∷ [])
    ∙ rw (shown-zeros (width - length str), shown-puts str) refl
