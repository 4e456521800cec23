-- ===== src/Ata/Layout/DeviceData.antt =====
-- Where the members of `identify_device_data_t` stand, and what ata.c says of it in ATA_IDENT_…
use Prim.Native.String.{String}
use aeon_486_os.Base.{ℕ, ◌*◌, ◌/◌, List, [], ◌∷◌, ◌++◌, map, Option, none, some, ◌≡◌, refl}
use aeon_486_os.Ata.Layout.{
  Member, packed_end, position_of, packed_start, member_width, width_of_part, struct_size, end_of,
  start_of, struct_align, align_of,
}
use aeon_486_os.Ata.Layout.Words.{words_0_75, words_76_81}
use aeon_486_os.Ata.Layout.Commands.{words_82_87, words_88_127, words_128_255}

abbrev pub identify_device_data : List Member
identify_device_data = words_0_75 ++ words_76_81 ++ words_82_87 ++ words_88_127 ++ words_128_255

-- The offset of a member in bytes; behind the struct for a name that it does not have.
abbrev pub byte_of : Option ℕ → ℕ
byte_of none = 512
byte_of (some position) = position / 8

unfoldable pub device_data_offset : String → ℕ
device_data_offset name = byte_of (position_of name 0 identify_device_data)

-- The members that ata.c has a constant for, and the constants.
abbrev pub ata_ident_names : List String
ata_ident_names =
    "general_configuration" ∷ "num_cylinders" ∷ "num_heads" ∷ "num_sectors_per_track"
    ∷ "serial_number" ∷ "model_number" ∷ "capabilities" ∷ "translation_fields_valid"
    ∷ "user_addressable_sectors" ∷ "command_set_support" ∷ "max48_bit_lba" ∷ []

abbrev pub ata_ident : List ℕ
ata_ident = 0 ∷ 2 ∷ 6 ∷ 12 ∷ 20 ∷ 54 ∷ 98 ∷ 106 ∷ 120 ∷ 164 ∷ 200 ∷ []

-- The members of `identify_device_data_t` fill the 512 bytes of a sector, and each member that ata.c
-- has a constant ATA_IDENT_… for stands at that offset, although the driver reads it through the struct.
pub device_data_lem :
    (packed_end 0 identify_device_data ≡ 512 * 8)
    × (map device_data_offset ata_ident_names ≡ ata_ident)
unfolding packed_end device_data_offset position_of packed_start member_width width_of_part
    struct_size end_of start_of struct_align align_of words_0_75 words_76_81 words_82_87
    words_88_127 words_128_255
device_data_lem = (refl, refl)

-- The members that `ata_identify` reads.
pub device_data_read :
    (device_data_offset "model_number" ≡ 54)
    × (device_data_offset "num_cylinders" ≡ 2)
    × (device_data_offset "num_heads" ≡ 6)
    × (device_data_offset "current_sectors_per_track" ≡ 112)
    × (device_data_offset "current_sector_capacity" ≡ 114)
unfolding device_data_offset position_of packed_start member_width width_of_part struct_size end_of
    start_of struct_align align_of words_0_75 words_76_81 words_82_87 words_88_127 words_128_255
device_data_read = (refl, refl, refl, refl, refl)
