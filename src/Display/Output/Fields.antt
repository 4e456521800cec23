-- ===== src/Display/Output/Fields.antt =====
-- What the calls of a round show, and the fields of a format.
use aeon_486_os.Base.{ℕ, suc, ◌+◌, ◌<◌, ◌≡◌, refl, arith, sym, ap, List, [], ◌∷◌, ◌++◌, inl, inr}
use aeon_486_os.Base.{true, ltb, Outcome, Outcome-cases, ok, panic, fault, ◌>>=◌}
use mathlib.Core.List.{append-nil, append_assoc}
use aeon_486_os.Klibc.Strings.{strlen}
use aeon_486_os.Klibc.Strings.Shortest.{numeral, itoa-numeral, itoa_s-numeral}
use aeon_486_os.Display.Output.{
  Argument, string, int, Call, Round, kvprintf_round, kvprintf_from, directive, next_int,
  next_string, shown,
}
use aeon_486_os.Display.Output.Shown.{shown-append, shown-padded}
use aeon_486_os.Display.Output.Format.{
  Letter, letter_s, letter_i, letter_d, letter_x, letter_c, code_of, AllFit, field_text, others,
  in_front,
}

-- What calls show, if there are any.
unfoldable pub show_calls : Outcome (List Call) → Outcome (List ℕ)
show_calls (ok calls) = ok (shown calls)
show_calls (panic p) = panic p
show_calls fault = fault

abbrev pub text_of_ok : Outcome (List ℕ) → List ℕ
text_of_ok (ok t) = t
text_of_ok (panic p) = []
text_of_ok fault = []

pub show_calls-ok :
    (o : Outcome (List Call)) (t : List ℕ)
    → show_calls o ≡ ok t
    → (calls : List Call) × (o ≡ ok calls) × (shown calls ≡ t)
unfolding show_calls
show_calls-ok (ok calls) t e = (calls, refl, ap text_of_ok e)
show_calls-ok (panic p) t e = absurd (cc)
show_calls-ok fault t e = absurd (cc)

-- The outcome of a round in front of the rest of the loop.
abbrev pub then_show : Outcome Round → (Round → Outcome (List Call)) → Outcome (List ℕ)
then_show (ok round) rest = in_front (shown round.calls) (show_calls (rest round))
then_show (panic p) rest = panic p
then_show fault rest = fault

pub in_front_append :
    (t u : List ℕ) (o : Outcome (List ℕ)) → in_front t (in_front u o) ≡ in_front (t ++ u) o
unfolding in_front
in_front_append t u (ok v) = ap ok (sym (append_assoc t u v))
in_front_append t u (panic p) = refl
in_front_append t u fault = refl

pub in_front_nil : (o : Outcome (List ℕ)) → in_front [] o ≡ o
unfolding in_front
in_front_nil (ok v) = refl
in_front_nil (panic p) = refl
in_front_nil fault = refl

pub show_calls-in_front :
    (calls : List Call) (o : Outcome (List Call))
    → show_calls (o >>= λ rest. ok (calls ++ rest)) ≡ in_front (shown calls) (show_calls o)
unfolding show_calls in_front
show_calls-in_front calls (ok rest) = ap ok (shown-append calls rest)
show_calls-in_front calls (panic p) = refl
show_calls-in_front calls fault = refl

-- A round of the loop inside of the format.
pub kvprintf_from-then :
    (fuel : ℕ) (fmt : List ℕ) (i num_width len : ℕ) (arguments : List Argument)
    → strlen fmt ≡ ok len
    → i < len
    → show_calls (kvprintf_from (suc fuel) fmt i num_width arguments)
      ≡ then_show
          (kvprintf_round fmt i num_width arguments)
          (λ r. kvprintf_from fuel fmt (r.i + 1) r.num_width r.arguments)
unfolding kvprintf_from show_calls
kvprintf_from-then fuel fmt i num_width len arguments size inside =
    let more : ltb i len ≡ true = ground arith in
    elim (Outcome-cases (kvprintf_round fmt i num_width arguments)) [
      | inl (r, e) ↦
          rw (size, more, e)
            (show_calls-in_front r.calls (kvprintf_from fuel fmt (r.i + 1) r.num_width r.arguments))
      | inr (inl (p, e)) ↦ rw (size, more, e) refl
      | inr (inr e) ↦ rw (size, more, e) refl
    ]

-- What is left after a field, for the rest of the loop.
abbrev pub after_field : (ℕ → ℕ → List Argument → Outcome (List Call)) → Round → Outcome (List Call)
after_field rest r = rest r.i r.num_width r.arguments

-- A field, and what follows it.
abbrev pub then_rest :
    Letter
    → (i num_width : ℕ) → List Argument
    → (ℕ → ℕ → List Argument → Outcome (List Call))
    → Outcome (List ℕ)
then_rest l i num_width arguments rest = field_text l num_width arguments >>= λ t.
    in_front t (show_calls (rest (i + 1) num_width (others arguments)))

-- A directive, with the text of its field.
pub directive-field :
    (l : Letter) (i num_width : ℕ) (arguments : List Argument)
    (rest : ℕ → ℕ → List Argument → Outcome (List Call))
    → AllFit arguments
    → then_show (directive (code_of l) i num_width arguments) (after_field rest)
      ≡ then_rest l i num_width arguments rest
unfolding directive field_text next_int next_string AllFit shown
directive-field letter_s i w [] rest fit = refl
directive-field letter_i i w [] rest fit = refl
directive-field letter_d i w [] rest fit = refl
directive-field letter_x i w [] rest fit = refl
directive-field letter_c i w [] rest fit = refl
directive-field letter_s i w (string s ∷ a) rest fit = rw (append-nil s) refl
directive-field letter_i i w (string s ∷ a) rest fit = refl
directive-field letter_d i w (string s ∷ a) rest fit = refl
directive-field letter_x i w (string s ∷ a) rest fit = refl
directive-field letter_c i w (string s ∷ a) rest fit = refl
directive-field letter_s i w (int n ∷ a) rest fit = refl
directive-field letter_i i w (int n ∷ a) rest (fit, more) =
    rw (itoa_s-numeral 10 n (omega arith) (omega arith) fit, shown-padded w (numeral 10 n)) refl
directive-field letter_d i w (int n ∷ a) rest (fit, more) =
    rw (itoa_s-numeral 10 n (omega arith) (omega arith) fit, shown-padded w (numeral 10 n)) refl
directive-field letter_x i w (int n ∷ a) rest (fit, more) =
    rw (itoa-numeral 16 n (omega arith) (omega arith) fit, shown-padded w (numeral 16 n)) refl
directive-field letter_c i w (int n ∷ a) rest fit = refl
