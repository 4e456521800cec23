-- ===== src/Hexdump/Tests.antt =====
-- The dump of a few bytes.
use aeon_486_os.Base.{ℕ, ◌≡◌, refl, arith, List, [], ◌∷◌, ◌++◌, codes, ok}
use aeon_486_os.Klibc.Strings.{isprint}
use aeon_486_os.Klibc.Strings.Digits.{digits_of}
use aeon_486_os.Hexdump.{Print, khexdump, print_all}
use aeon_486_os.Hexdump.Prints.{AllBytes}
use aeon_486_os.Hexdump.Rows.{dump_row}
use aeon_486_os.Hexdump.Dump.{dump, khexdump_lem}

abbrev greeting : List ℕ
greeting = 0x48 ∷ 0x69 ∷ 0x0A ∷ 0xFF ∷ []

greeting-AllBytes : AllBytes greeting
unfolding AllBytes
greeting-AllBytes = (omega arith, (omega arith, (omega arith, (omega arith, tt))))

khexdump_lem_example :
    (prints : List Print) × (khexdump (greeting ++ (0x21 ∷ [])) 4 ≡ ok prints)
    × (print_all prints ≡ ok (dump greeting))
khexdump_lem_example = khexdump_lem greeting (0x21 ∷ []) (omega arith) greeting-AllBytes

-- What a row looks like.
greeting_row :
    dump_row 0x10 greeting
    ≡ codes "00000010|48 69 0A FF                                     |Hi..            |\n"
unfolding dump_row digits_of isprint
greeting_row = refl
