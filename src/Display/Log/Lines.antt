-- ===== src/Display/Log/Lines.antt =====
-- What the kernel's messages put on the screen.
use aeon_486_os.Base.{ℕ, ◌≡◌, refl, ap, ◌∙◌, sym, List, [], ◌∷◌, ◌++◌, some, ok, ◌>>=◌}
use aeon_486_os.Platform.Hal.{Message}
use aeon_486_os.Mutex.{new_mutex}
use aeon_486_os.Display.Output.{Argument, kvprintf}
use aeon_486_os.Display.Output.Format.{Piece, encode, IsFormat, AllFit, render}
use aeon_486_os.Display.Output.Fields.{show_calls-ok}
use aeon_486_os.Display.Output.Render.{kvprintf_lem}
use aeon_486_os.Display.Textmode.{Screen, textmode_puts}
use aeon_486_os.Display.Textmode.Cursor.{IsText, IsOnScreen, IsOutside}
use aeon_486_os.Display.Printing.{Printer, kprintf}
use aeon_486_os.Display.Printing.Whole.{kprintf_lem, textmode_puts-append, textmode_puts-nil}
use aeon_486_os.Display.Log.{format_of, arguments_of, print_messages}
use aeon_486_os.Display.Log.Texts.{text_of, pieces_of, encode-pieces_of, render-pieces_of}
use aeon_486_os.Display.Log.Shapes.{IsFormat-pieces_of, IsText-text_of}

-- One display, and nobody inside of `kvprintf`.
abbrev pub free : (d : ℕ) → Screen → Printer
free d screen = record { m_kprintf = new_mutex; s_displays = d ∷ []; screen = screen }

-- The screen behind a text, and what was kept of the memory and of the position.
pub record IsPut (screen after : Screen) (x : ℕ) (t : List ℕ) : Type 0 where
  pub puts : textmode_puts (t ++ (0 ∷ [])) screen ≡ ok after
  pub on : IsOnScreen after.console
  pub kept : after.memory x ≡ screen.memory x

IsPut-nil : (screen : Screen) (x : ℕ) → IsOnScreen screen.console → IsPut screen screen x []
IsPut-nil screen x on = record { puts = textmode_puts-nil screen; on = on; kept = refl }

pub IsPut-append :
    (screen middle after : Screen) (x : ℕ) (t u : List ℕ)
    → IsText t
    → IsPut screen middle x t
    → IsPut middle after x u
    → IsPut screen after x (t ++ u)
IsPut-append screen middle after x t u plain first second = record {
  puts =
      textmode_puts-append t u screen plain
      ∙ ap (λ o. o >>= textmode_puts (u ++ (0 ∷ []))) first.puts
      ∙ second.puts;
  on = second.on;
  kept = second.kept ∙ first.kept;
}

-- A call of `kprintf` for some pieces.
pub kprintf-pieces :
    (screen : Screen) (d x : ℕ) (pieces : List Piece) (arguments : List Argument) (t : List ℕ)
    → IsFormat pieces
    → AllFit arguments
    → render pieces 0 arguments ≡ ok t
    → IsText t
    → IsOnScreen screen.console
    → IsOutside x
    → (after : Screen) × (kprintf (free d screen) (encode pieces ++ (0 ∷ [])) arguments
        ≡ some (ok (free d after)))
      × IsPut screen after x t
kprintf-pieces screen d x pieces arguments t good fit means plain on out =
    let (calls, runs, e) =
      show_calls-ok (kvprintf (encode pieces ++ (0 ∷ [])) arguments) t
        (kvprintf_lem pieces arguments good fit ∙ means) in
    let (after, prints, puts, on', kept) =
      kprintf_lem screen d x (encode pieces ++ (0 ∷ [])) arguments calls runs (rw e plain) on out in
    (
      after,
      prints,
      record {
        puts = ap (λ cs. textmode_puts (cs ++ (0 ∷ [])) screen) (sym e) ∙ puts;
        on = on';
        kept = kept;
      },
    )

pub kprintf-message :
    (screen : Screen) (d x : ℕ) (m : Message)
    → AllFit (arguments_of m)
    → IsOnScreen screen.console
    → IsOutside x
    → (after : Screen) × (kprintf (free d screen) (format_of m ++ (0 ∷ [])) (arguments_of m)
        ≡ some (ok (free d after)))
      × IsPut screen after x (text_of m)
kprintf-message screen d x m fit on out = rw (sym (encode-pieces_of m)) (
    kprintf-pieces screen d x (pieces_of m) (arguments_of m) (text_of m) (IsFormat-pieces_of m) fit
      (render-pieces_of m) (IsText-text_of m) on out)

-- The numbers in all messages are words of 32 bits.
unfoldable pub AllMessagesFit : List Message → Type 0
AllMessagesFit [] = Unit
AllMessagesFit (m ∷ messages) = AllFit (arguments_of m) × AllMessagesFit messages

-- What the messages say, one behind the other.
unfoldable pub texts_of : List Message → List ℕ
texts_of [] = []
texts_of (m ∷ messages) = text_of m ++ texts_of messages

print_messages-IsPut :
    (messages : List Message) (screen : Screen) (d x : ℕ)
    → AllMessagesFit messages
    → IsOnScreen screen.console
    → IsOutside x
    → (after : Screen) × (print_messages messages (free d screen) ≡ some (ok (free d after)))
      × IsPut screen after x (texts_of messages)
unfolding print_messages AllMessagesFit texts_of
print_messages-IsPut [] screen d x fit on out = (screen, refl, IsPut-nil screen x on)
print_messages-IsPut (m ∷ messages) screen d x (fit, others) on out =
    let (middle, prints, put) = kprintf-message screen d x m fit on out in
    let (after, more, put') = print_messages-IsPut messages middle d x others put.on out in
    (
      after,
      rw prints more,
      IsPut-append screen middle after x (text_of m) (texts_of messages) (IsText-text_of m) put
          put',
    )

-- With the mutex free and one display with its position on the screen, all messages of the kernel,
-- in any order and number, are printed, if their numbers are below 2^32: the mutex is free behind
-- them, the screen is as `textmode_puts` of all their texts in one leaves it, with the position on
-- the screen again, and no byte outside of the screen and of the two rows behind it has changed.
pub print_messages_lem :
    (messages : List Message) (screen : Screen) (d x : ℕ)
    → AllMessagesFit messages
    → IsOnScreen screen.console
    → IsOutside x
    → (after : Screen) × (print_messages messages (free d screen) ≡ some (ok (free d after)))
      × (textmode_puts (texts_of messages ++ (0 ∷ [])) screen ≡ ok after)
      × IsOnScreen after.console
      × (after.memory x ≡ screen.memory x)
print_messages_lem messages screen d x fit on out =
    let (after, prints, put) = print_messages-IsPut messages screen d x fit on out in
    (after, prints, put.puts, put.on, put.kept)
