-- ===== src/Display/Printing/Whole.antt =====
-- What `kprintf` puts on the screen is one text.
use aeon_486_os.Base.{
  ℕ, List, [], ◌∷◌, ◌++◌, some, ok, ◌>>=◌, ◌≡◌, refl, ap, ◌∙◌, sym, false, ◌==◌, Outcome-cases, inl,
  inr,
}
use aeon_486_os.Mutex.{new_mutex, mutex_lock, mutex_unlock}
use aeon_486_os.Display.Output.{Argument, Call, putc, puts, kvprintf, shown}
use aeon_486_os.Display.Textmode.{Screen, textmode_putc, textmode_puts}
use aeon_486_os.Display.Textmode.Cursor.{IsText, IsOnScreen, IsOutside, textmode_puts-IsOnScreen}
use aeon_486_os.Display.Printing.{call_screen, call_displays, call_all, print_locked, kprintf}

pub textmode_puts-nil : (screen : Screen) → textmode_puts (0 ∷ []) screen ≡ ok screen
unfolding textmode_puts
textmode_puts-nil screen = refl

textmode_puts-suc :
    (c : ℕ) (text : List ℕ) (screen : Screen)
    → (c == 0) ≡ false
    → textmode_puts (c ∷ text) screen ≡ textmode_puts text (textmode_putc c screen)
unfolding textmode_puts
textmode_puts-suc c text screen char = rw char refl

-- A text in two parts.
pub textmode_puts-append :
    (first second : List ℕ) (screen : Screen)
    → IsText first
    → textmode_puts (first ++ second ++ (0 ∷ [])) screen
      ≡ (textmode_puts (first ++ (0 ∷ [])) screen >>= textmode_puts (second ++ (0 ∷ [])))
unfolding textmode_puts IsText
textmode_puts-append [] second screen plain = refl
textmode_puts-append (c ∷ first) second screen (char, plain) =
    rw char (textmode_puts-append first second (textmode_putc c screen) plain)

IsText-parts : (first second : List ℕ) → IsText (first ++ second) → IsText first × IsText second
unfolding IsText
IsText-parts [] second plain = (tt, plain)
IsText-parts (c ∷ first) second (char, plain) =
    let (a, b) = IsText-parts first second plain in ((char, a), b)

-- The calls on one display put out the text that they show.
call_all_lem :
    (d : ℕ) (calls : List Call) (screen : Screen)
    → IsText (shown calls)
    → call_all (d ∷ []) calls screen ≡ textmode_puts (shown calls ++ (0 ∷ [])) screen
unfolding call_all call_displays call_screen shown IsText
call_all_lem d [] screen plain = sym (textmode_puts-nil screen)
call_all_lem d (putc c ∷ calls) screen (char, plain) =
    call_all_lem d calls (textmode_putc c screen) plain
    ∙ sym (textmode_puts-suc c (shown calls ++ (0 ∷ [])) screen char)
call_all_lem d (puts s ∷ calls) screen plain =
    let (text, rest) = IsText-parts s (shown calls) plain in
    let split = textmode_puts-append s (shown calls) screen text in
    elim (Outcome-cases (textmode_puts (s ++ (0 ∷ [])) screen)) [
      | inl (next, e) ↦ rw (split, e) (call_all_lem d calls next rest)
      | inr (inl (p, e)) ↦ rw (split, e) refl
      | inr (inr e) ↦ rw (split, e) refl
    ]

-- The result of `kprintf` with a free mutex.
kprintf-ok :
    (screen after : Screen) (d : ℕ) (fmt : List ℕ) (ap : List Argument) (calls : List Call)
    → kvprintf fmt ap ≡ ok calls
    → call_all (d ∷ []) calls screen ≡ ok after
    → kprintf (record { m_kprintf = new_mutex; s_displays = d ∷ []; screen = screen }) fmt ap
      ≡ some (ok (record { m_kprintf = new_mutex; s_displays = d ∷ []; screen = after }))
unfolding kprintf print_locked mutex_lock mutex_unlock
kprintf-ok screen after d fmt ap calls runs shows = rw (runs, shows) refl

-- With a free mutex and one display, `kprintf` of a format whose calls show a text without a 0 ends
-- with the mutex free, leaves the screen as `textmode_puts` of that whole text does, with the position
-- on the screen, and writes nothing outside of the screen and of the two rows behind it.
pub kprintf_lem :
    (screen : Screen) (d x : ℕ) (fmt : List ℕ) (ap : List Argument) (calls : List Call)
    → kvprintf fmt ap ≡ ok calls
    → IsText (shown calls)
    → IsOnScreen screen.console
    → IsOutside x
    → (after : Screen) × (kprintf
          (record { m_kprintf = new_mutex; s_displays = d ∷ []; screen = screen })
          fmt
          ap
        ≡ some (ok (record { m_kprintf = new_mutex; s_displays = d ∷ []; screen = after })))
      × (textmode_puts (shown calls ++ (0 ∷ [])) screen ≡ ok after)
      × IsOnScreen after.console
      × (after.memory x ≡ screen.memory x)
kprintf_lem screen d x fmt ap calls runs plain on out =
    let (after, puts_all, on_after, kept) =
      textmode_puts-IsOnScreen (shown calls) screen x plain on out in
    (
      after,
      kprintf-ok screen after d fmt ap calls runs (call_all_lem d calls screen plain ∙ puts_all),
      puts_all,
      on_after,
      kept,
    )
