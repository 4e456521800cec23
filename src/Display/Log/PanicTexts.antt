-- ===== src/Display/Log/PanicTexts.antt =====
-- The texts of the kernel's panics, and the formats that say them.
use aeon_486_os.Base.{
  ℕ, ◌^◌, ◌<◌, ◌≡◌, refl, arith, List, [], ◌∷◌, ◌++◌, codes, ok, Panic, out_of_physical_memory,
  out_of_page_space, unpage_locked, multiboot_magic, ata_failure,
}
use mathlib.Core.List.{append-nil}
use aeon_486_os.Klibc.Strings.Shortest.{numeral}
use aeon_486_os.Display.Output.{string, int}
use aeon_486_os.Display.Output.Format.{
  Piece, text, field, letter_s, letter_d, letter_x, encode, IsFormat, AllFit, render, in_front,
  field_text,
}
use aeon_486_os.Display.Textmode.Cursor.{IsText}
use aeon_486_os.Display.Log.{panic_format, place_format, panic_arguments, panic_place, PanicPlace}
use aeon_486_os.Display.Log.Plain.{plain-IsText, IsText-append, IsText-numeral}
use aeon_486_os.Display.Output.Text.{plain-IsFormatText}
use aeon_486_os.Display.Log.Texts.{filled_nil}

-- What a panic says behind its place.
unfoldable pub panic_text : (magic : ℕ) → Panic → List ℕ
panic_text magic out_of_physical_memory = codes "Out of physical memory."
panic_text magic out_of_page_space = codes "Out of page space."
panic_text magic unpage_locked = codes "Kernel tried to unpage a locked page."
panic_text magic multiboot_magic = codes "Multiboot magic invalid: " ++ numeral 16 magic
panic_text magic ata_failure = codes "ATA device failure.\n"

abbrev pub panic_pieces : Panic → List Piece
panic_pieces out_of_physical_memory = text (codes "Out of physical memory.") ∷ []
panic_pieces out_of_page_space = text (codes "Out of page space.") ∷ []
panic_pieces unpage_locked = text (codes "Kernel tried to unpage a locked page.") ∷ []
panic_pieces multiboot_magic = text (codes "Multiboot magic invalid: ") ∷ field letter_x ∷ []
panic_pieces ata_failure = text (codes "ATA device failure.\n") ∷ []

-- Where it is.
unfoldable pub place_text : PanicPlace → List ℕ
place_text place =
    codes "\n\n***KERNEL PANIC***\n\n "
    ++ (place.file
        ++ (codes ":" ++ (numeral 10 place.line ++ (codes " in " ++ (place.func ++ codes ".\n")))))

abbrev pub place_pieces : List Piece
place_pieces =
    text (codes "\n\n***KERNEL PANIC***\n\n ")
    ∷ field letter_s
    ∷ text (codes ":")
    ∷ field letter_d
    ∷ text (codes " in ")
    ∷ field letter_s
    ∷ text (codes ".\n")
    ∷ []

pub render-place :
    (place : PanicPlace)
    → render place_pieces 0 (string place.file ∷ int place.line ∷ string place.func ∷ [])
      ≡ ok (place_text place)
unfolding render in_front field_text place_text
render-place place = rw (filled_nil (numeral 10 place.line)) refl

pub encode-place_pieces : encode place_pieces ≡ place_format
unfolding encode place_format
encode-place_pieces = refl

pub IsFormat-place_pieces : IsFormat place_pieces
unfolding IsFormat
IsFormat-place_pieces = (
  plain-IsFormatText (codes "\n\n***KERNEL PANIC***\n\n ") refl,
  (
    plain-IsFormatText (codes ":") refl,
    (plain-IsFormatText (codes " in ") refl, (plain-IsFormatText (codes ".\n") refl, tt)),
  ),
)

pub render-panic :
    (magic : ℕ) (p : Panic)
    → render (panic_pieces p) 0 (panic_arguments magic p) ≡ ok (panic_text magic p)
unfolding render in_front field_text panic_text panic_arguments
render-panic magic out_of_physical_memory = refl
render-panic magic out_of_page_space = refl
render-panic magic unpage_locked = refl
render-panic magic multiboot_magic =
    rw (filled_nil (numeral 16 magic), append-nil (numeral 16 magic)) refl
render-panic magic ata_failure = refl

pub encode-panic_pieces : (p : Panic) → encode (panic_pieces p) ≡ panic_format p
unfolding encode panic_format
encode-panic_pieces out_of_physical_memory = refl
encode-panic_pieces out_of_page_space = refl
encode-panic_pieces unpage_locked = refl
encode-panic_pieces multiboot_magic = refl
encode-panic_pieces ata_failure = refl

pub IsFormat-panic_pieces : (p : Panic) → IsFormat (panic_pieces p)
unfolding IsFormat
IsFormat-panic_pieces out_of_physical_memory =
    (plain-IsFormatText (codes "Out of physical memory.") refl, tt)
IsFormat-panic_pieces out_of_page_space = (plain-IsFormatText (codes "Out of page space.") refl, tt)
IsFormat-panic_pieces unpage_locked =
    (plain-IsFormatText (codes "Kernel tried to unpage a locked page.") refl, tt)
IsFormat-panic_pieces multiboot_magic =
    (plain-IsFormatText (codes "Multiboot magic invalid: ") refl, tt)
IsFormat-panic_pieces ata_failure = (plain-IsFormatText (codes "ATA device failure.\n") refl, tt)

pub IsText-panic_text : (magic : ℕ) (p : Panic) → IsText (panic_text magic p)
unfolding panic_text
IsText-panic_text magic out_of_physical_memory = plain-IsText (codes "Out of physical memory.") refl
IsText-panic_text magic out_of_page_space = plain-IsText (codes "Out of page space.") refl
IsText-panic_text magic unpage_locked =
    plain-IsText (codes "Kernel tried to unpage a locked page.") refl
IsText-panic_text magic multiboot_magic =
    IsText-append (codes "Multiboot magic invalid: ") (numeral 16 magic)
      (plain-IsText (codes "Multiboot magic invalid: ") refl) (IsText-numeral 16 magic)
IsText-panic_text magic ata_failure = plain-IsText (codes "ATA device failure.\n") refl

pub AllFit-panic : (magic : ℕ) (p : Panic) → magic < 2 ^ 32 → AllFit (panic_arguments magic p)
unfolding AllFit panic_arguments
AllFit-panic magic out_of_physical_memory word = tt
AllFit-panic magic out_of_page_space word = tt
AllFit-panic magic unpage_locked word = tt
AllFit-panic magic multiboot_magic word = (word, tt)
AllFit-panic magic ata_failure word = tt

pub IsText-place_text :
    (place : PanicPlace) → IsText place.file → IsText place.func → IsText (place_text place)
unfolding place_text
IsText-place_text place file func =
    let last = codes ".\n" in
    let rest = codes " in " ++ (place.func ++ last) in
    let line = codes ":" ++ (numeral 10 place.line ++ rest) in
    IsText-append (codes "\n\n***KERNEL PANIC***\n\n ") (place.file ++ line)
      (plain-IsText (codes "\n\n***KERNEL PANIC***\n\n ") refl)
      (IsText-append place.file line file (
        IsText-append (codes ":") (numeral 10 place.line ++ rest) (plain-IsText (codes ":") refl) (
          IsText-append (numeral 10 place.line) rest (IsText-numeral 10 place.line) (
            IsText-append (codes " in ") (place.func ++ last) (plain-IsText (codes " in ") refl)
              (IsText-append place.func last func (plain-IsText last refl))))))

pub IsText-func : (file : List ℕ) (p : Panic) → IsText (panic_place file p).func
IsText-func file out_of_physical_memory = plain-IsText (codes "kmalloc") refl
IsText-func file out_of_page_space = plain-IsText (codes "page") refl
IsText-func file unpage_locked = plain-IsText (codes "unpage") refl
IsText-func file multiboot_magic = plain-IsText (codes "kernel_main") refl
IsText-func file ata_failure = plain-IsText (codes "ata_poll_status") refl

pub file-IsText : (file : List ℕ) (p : Panic) → IsText file → IsText (panic_place file p).file
file-IsText file out_of_physical_memory name = name
file-IsText file out_of_page_space name = name
file-IsText file unpage_locked name = name
file-IsText file multiboot_magic name = name
file-IsText file ata_failure name = name

pub line-lt : (file : List ℕ) (p : Panic) → (panic_place file p).line < 2 ^ 32
line-lt file out_of_physical_memory = omega arith
line-lt file out_of_page_space = omega arith
line-lt file unpage_locked = omega arith
line-lt file multiboot_magic = omega arith
line-lt file ata_failure = omega arith
