-- ===== src/Display/Log/Tests.antt =====
-- The messages and the panics of the kernel on a small screen.
use aeon_486_os.Base.{
  ℕ, ◌≡◌, refl, arith, List, [], ◌∷◌, ◌++◌, codes, some, ok, inl, ◌%◌, out_of_page_space,
  multiboot_magic,
}
use aeon_486_os.Platform.Hal.{Message}
use aeon_486_os.Klibc.Strings.Shortest.{numeral, significant}
use aeon_486_os.Display.Output.Format.{AllFit}
use aeon_486_os.Display.Textmode.{Screen, textmode_puts}
use aeon_486_os.Display.Textmode.Cursor.{IsOnScreen}
use aeon_486_os.Display.Log.{arguments_of, print_messages, panic_print, panic_place, c_string}
use aeon_486_os.Display.Log.Plain.{plain-IsText}
use aeon_486_os.Display.Log.Texts.{text_of}
use aeon_486_os.Display.Log.Lines.{free, AllMessagesFit, texts_of, print_messages_lem}
use aeon_486_os.Display.Log.PanicTexts.{panic_text, place_text}
use aeon_486_os.Display.Log.Panics.{panic_print_lem}

abbrev blank : Screen
blank = record {
  memory = λ x. x % 256;
  console = record { cx = 0; cy = 22; fgcol = 15; bgcol = 0 };
  trace = [];
}

blank-IsOnScreen : IsOnScreen blank.console
blank-IsOnScreen = record { column = omega arith; row = omega arith }

abbrev some_messages : List Message
some_messages =
    Message.now_booting
    ∷ Message.memory_size 65536 64
    ∷ Message.drive_model 0 1 (b'Q' ∷ 0 ∷ b'x' ∷ [])
    ∷ []

some_messages-AllMessagesFit : AllMessagesFit some_messages
unfolding AllMessagesFit arguments_of AllFit
some_messages-AllMessagesFit =
    (tt, ((omega arith, (omega arith, tt)), ((omega arith, (omega arith, tt)), tt)))

print_messages_lem_example :
    (after : Screen) × (print_messages some_messages (free 0 blank) ≡ some (ok (free 0 after)))
    × (textmode_puts (texts_of some_messages ++ (0 ∷ [])) blank ≡ ok after)
    × IsOnScreen after.console
    × (after.memory 0x1000 ≡ blank.memory 0x1000)
print_messages_lem_example =
    print_messages_lem some_messages blank 0 0x1000 some_messages-AllMessagesFit blank-IsOnScreen
      (inl (omega arith))

some_texts :
    texts_of some_messages
    ≡ codes "Now booting AEON 0.0.1\nMemory size: 65536 bytes (64 KiB)\nATA Drive 0:1: Q\n"
unfolding texts_of text_of numeral significant c_string
some_texts = refl

abbrev paging_file : List ℕ
paging_file = codes "paging.c"

panic_print_lem_example :
    (after : Screen) × (panic_print paging_file 7 out_of_page_space (free 0 blank)
      ≡ some (ok (free 0 after)))
    × (textmode_puts
          ((place_text (panic_place paging_file out_of_page_space)
              ++ panic_text 7 out_of_page_space)
            ++ (0 ∷ []))
          blank
        ≡ ok after)
    × IsOnScreen after.console
    × (after.memory 0x1000 ≡ blank.memory 0x1000)
panic_print_lem_example =
    panic_print_lem blank 0 0x1000 7 paging_file out_of_page_space (plain-IsText paging_file refl)
      (omega arith) blank-IsOnScreen (inl (omega arith))

some_panic :
    place_text (panic_place paging_file out_of_page_space) ++ panic_text 7 out_of_page_space
    ≡ codes "\n\n***KERNEL PANIC***\n\n paging.c:165 in page.\nOut of page space."
unfolding place_text panic_text numeral significant
some_panic = refl

other_panic : panic_text 0x1F multiboot_magic ≡ codes "Multiboot magic invalid: 1F"
unfolding panic_text numeral significant
other_panic = refl
