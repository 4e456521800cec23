-- ===== src/Ata/Layout.antt =====
-- How the C compiler lays out the structs of ata.h and ata.c: positions in bits, as the i386 ABI has
-- them. A packed struct puts each bit-field at the next bit and every other member at the next byte.
-- A struct that is not packed keeps a bit-field inside one unit of its type, aligns its members, and
-- fills its end up to its own alignment; as the member of a packed struct it starts at any byte.
pub mod Words
pub mod Commands
pub mod DeviceData
use Prim.Native.String.{String}
use text.Mathlib.Text.{◌==◌ as str_eq}
use aeon_486_os.Base.{
  ℕ, zero, suc, ◌+◌, ◌-◌, ◌*◌, ◌/◌, List, [], ◌∷◌, Option, none, some, ◌==◌, if◌then◌else◌, max,
}

-- `T name : width` with `unit` bits in T, and a member or an array of `size` bytes in all.
pub data Part : Type 0 where
  bits : (unit width : ℕ) → Part
  bytes : (align size : ℕ) → Part

pub data Member : Type 0 where
  part : String → Part → Member
  struct : String → List (String × Part) → Member

abbrev pub align_up : (position unit : ℕ) → ℕ
align_up position unit = (position + unit - 1) / unit * unit

-- In a struct that is not packed: where a part begins, and its alignment.
unfoldable pub start_of : (position : ℕ) → Part → ℕ
start_of position (bits unit width) =
    if position / unit == (position + width - 1) / unit then position else align_up position unit
start_of position (bytes align size) = align_up position (8 * align)

unfoldable pub width_of_part : Part → ℕ
width_of_part (bits unit width) = width
width_of_part (bytes align size) = 8 * size

unfoldable pub align_of : Part → ℕ
align_of (bits unit width) = unit
align_of (bytes align size) = 8 * align

-- The end of the parts from `position` on, and the alignment of the struct.
unfoldable pub end_of : (position : ℕ) → List (String × Part) → ℕ
end_of position [] = position
end_of position ((name, p) ∷ parts) = end_of (start_of position p + width_of_part p) parts

unfoldable pub struct_align : List (String × Part) → ℕ
struct_align [] = 1
struct_align ((name, p) ∷ parts) = max (align_of p) (struct_align parts)

-- `sizeof` of a struct that is not packed, in bits.
unfoldable pub struct_size : List (String × Part) → ℕ
struct_size parts = align_up (end_of 0 parts) (struct_align parts)

-- In a packed struct: where a member begins, and what it takes.
unfoldable pub packed_start : (position : ℕ) → Member → ℕ
packed_start position (part name (bits unit width)) = position
packed_start position (part name (bytes align size)) = align_up position 8
packed_start position (struct name parts) = align_up position 8

unfoldable pub member_width : Member → ℕ
member_width (part name p) = width_of_part p
member_width (struct name parts) = struct_size parts

abbrev pub member_name : Member → String
member_name (part name p) = name
member_name (struct name parts) = name

unfoldable pub packed_end : (position : ℕ) → List Member → ℕ
packed_end position [] = position
packed_end position (m ∷ members) = packed_end (packed_start position m + member_width m) members

-- The position of the first member of that name.
unfoldable pub position_of : String → (position : ℕ) → List Member → Option ℕ
position_of name position [] = none
position_of name position (m ∷ members) =
    let start = packed_start position m in
    let rest = position_of name (start + member_width m) members in
    if str_eq (member_name m) name then some start else rest
