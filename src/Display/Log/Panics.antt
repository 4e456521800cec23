-- ===== src/Display/Log/Panics.antt =====
-- What `panic` puts on the screen.
use aeon_486_os.Base.{ℕ, ◌^◌, ◌<◌, ◌≡◌, sym, List, [], ◌∷◌, ◌++◌, some, ok, Panic}
use aeon_486_os.Display.Output.{string, int}
use aeon_486_os.Display.Output.Format.{AllFit}
use aeon_486_os.Display.Textmode.{Screen, textmode_puts}
use aeon_486_os.Display.Textmode.Cursor.{IsText, IsOnScreen, IsOutside}
use aeon_486_os.Display.Printing.{kprintf}
use aeon_486_os.Display.Log.{
  panic_print, panic_format, place_format, panic_arguments, panic_place, PanicPlace,
}
use aeon_486_os.Display.Log.Lines.{free, IsPut, IsPut-append, kprintf-pieces}
use aeon_486_os.Display.Log.PanicTexts.{
  panic_text, place_text, panic_pieces, place_pieces, render-place, encode-place_pieces,
  IsFormat-place_pieces, render-panic, encode-panic_pieces, IsFormat-panic_pieces,
  IsText-panic_text, AllFit-panic, IsText-place_text, IsText-func, file-IsText, line-lt,
}

kprintf-place :
    (screen : Screen) (d x : ℕ) (place : PanicPlace)
    → IsText place.file
    → IsText place.func
    → place.line < 2 ^ 32
    → IsOnScreen screen.console
    → IsOutside x
    → (after : Screen) × (kprintf
          (free d screen)
          (place_format ++ (0 ∷ []))
          (string place.file ∷ int place.line ∷ string place.func ∷ [])
        ≡ some (ok (free d after)))
      × IsPut screen after x (place_text place)
unfolding AllFit
kprintf-place screen d x place file func line on out = rw (sym encode-place_pieces) (
    kprintf-pieces screen d x place_pieces
      (string place.file ∷ int place.line ∷ string place.func ∷ []) (place_text place)
      IsFormat-place_pieces (line, tt) (render-place place) (IsText-place_text place file func) on
      out)

kprintf-panic :
    (screen : Screen) (d x magic : ℕ) (p : Panic)
    → magic < 2 ^ 32
    → IsOnScreen screen.console
    → IsOutside x
    → (after : Screen) × (kprintf
          (free d screen)
          (panic_format p ++ (0 ∷ []))
          (panic_arguments magic p)
        ≡ some (ok (free d after)))
      × IsPut screen after x (panic_text magic p)
kprintf-panic screen d x magic p word on out = rw (sym (encode-panic_pieces p)) (
    kprintf-pieces screen d x (panic_pieces p) (panic_arguments magic p) (panic_text magic p)
      (IsFormat-panic_pieces p) (AllFit-panic magic p word) (render-panic magic p)
      (IsText-panic_text magic p) on out)

-- With the mutex free and one display with its position on the screen, each panic of the kernel
-- says where it is and what it is about before it turns for ever: the screen is as `textmode_puts`
-- of that text leaves it, with the position on the screen again, and no byte outside of the screen
-- and of the two rows behind it has changed. The name of the file holds no 0, and the magic number
-- is below 2^32.
pub panic_print_lem :
    (screen : Screen) (d x magic : ℕ) (file : List ℕ) (p : Panic)
    → IsText file
    → magic < 2 ^ 32
    → IsOnScreen screen.console
    → IsOutside x
    → (after : Screen) × (panic_print file magic p (free d screen) ≡ some (ok (free d after)))
      × (textmode_puts ((place_text (panic_place file p) ++ panic_text magic p) ++ (0 ∷ [])) screen
          ≡ ok after)
      × IsOnScreen after.console
      × (after.memory x ≡ screen.memory x)
unfolding panic_print
panic_print_lem screen d x magic file p name word on out =
    let place = panic_place file p in
    let (middle, first, put) =
      kprintf-place screen d x place (file-IsText file p name) (IsText-func file p) (line-lt file p)
        on out in
    let (after, second, put') = kprintf-panic middle d x magic p word put.on out in
    let both =
      IsPut-append screen middle after x (place_text place) (panic_text magic p)
        (IsText-place_text place (file-IsText file p name) (IsText-func file p)) put put' in
    (after, rw first second, both.puts, both.on, both.kept)
