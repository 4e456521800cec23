-- ===== src/Startup/Tests.antt =====
-- The theorems on the boot code at a small image.
use aeon_486_os.Base.{
  ◌+◌, ◌*◌, ◌≡◌, refl, arith, inl, ok, fault, some, none, ltb, true, false, if◌then◌else◌,
}
use aeon_486_os.Memory.Allocator.{Kernel}
use aeon_486_os.Memory.Allocator.Init.{IsFresh, mem_get_bytes_lem}
use aeon_486_os.Memory.Allocator.Kmalloc.{IsTaken}
use aeon_486_os.Memory.Tests.Allocator.{cmos}
use aeon_486_os.Ata.{ready}
use aeon_486_os.Ata.Identify.{ata_info_size}
use aeon_486_os.Main.{Started, multiboot_bootloader_magic}
use aeon_486_os.Main.Tests.{small_machine, registers, small_device-IsPresent}
use aeon_486_os.Startup.{Words, Image, set_up_tables, behind_jump}
use aeon_486_os.Startup.Counter.{identity_pages, kernel_pages, pages_of}
use aeon_486_os.Startup.Tables.{IsPlaced}
use aeon_486_os.Startup.{translate}
use aeon_486_os.Startup.Space.{address_space, IsCleared}
use aeon_486_os.Startup.Paged.{located, behind_jump-translate, set_up_tables-translate}
use aeon_486_os.Startup.Start.{boot_kernel, boot_kernel_lem, HasDevices}

abbrev small_image : Image
small_image = record { page_directory = 0x104000; kernel_end = 0x10C000 }

abbrev zeros : Words
zeros = λ x. 0

small_image-IsPlaced : IsPlaced small_image
small_image-IsPlaced = record {
  aligned = refl;
  behind = omega arith;
  ahead = omega arith;
  below = omega arith;
}

zeros-IsCleared : IsCleared small_image zeros
zeros-IsCleared x from to = refl

-- A counter that stops the second loop one page ahead of the end of the kernel.
behind_jump-translate_example :
    (after : Words) × (set_up_tables small_image 1291 zeros ≡ ok after)
    × (located small_image 0xC010B000 (behind_jump small_image after) ≡ (
        if ltb 0x104000 (kernel_pages small_image 1291 * 4096)
        then ok (address_space (identity_pages 1291) (kernel_pages small_image 1291) 0xC010B000)
        else fault))
behind_jump-translate_example =
    behind_jump-translate small_image 1291 0xC010B000 zeros (omega arith) (omega arith)
      small_image-IsPlaced zeros-IsCleared

page_missing : address_space (identity_pages 1291) (kernel_pages small_image 1291) 0xC010B000 ≡ none
unfolding address_space
page_missing = refl

-- The counter 1291 comes past the page directory, and 1025 does not come to the kernel at all.
goes_on_1291 : ltb 0x104000 (kernel_pages small_image 1291 * 4096) ≡ true
goes_on_1291 = refl

faults_1025 : ltb 0x104000 (kernel_pages small_image 1025 * 4096) ≡ false
faults_1025 = refl

page_there :
    address_space (identity_pages 0) (kernel_pages small_image 0) 0xC010B004 ≡ some 0x10B004
unfolding address_space
page_there = refl

set_up_tables-translate_example :
    (after : Words) × (set_up_tables small_image 0 zeros ≡ ok after)
    × (translate after 0x104000 0x10B004 ≡ some 0x10B004)
    × (translate after 0x104000 (0xC0000000 + 0x10B004) ≡ some 0x10B004)
set_up_tables-translate_example =
    set_up_tables-translate small_image 0 0x10B004 zeros (omega arith) small_image-IsPlaced
      zeros-IsCleared (omega arith) (omega arith)

small_machine-HasDevices : HasDevices small_machine cmos small_image 0
small_machine-HasDevices = record {
  registers = λ t r h. registers t r;
  memory = omega (arith, mem_get_bytes_lem cmos (omega arith) (omega arith));
  primary = small_device-IsPresent 0x1F7 refl;
  secondary = small_device-IsPresent 0x177 refl;
}

boot_kernel_lem_example :
    (started : Started) × (k : Kernel) × (boot_kernel 1 small_machine small_image 0
        multiboot_bootloader_magic zeros
      ≡ ok (ready started))
    × IsFresh cmos (pages_of small_image * 4096) k
    × IsTaken k ata_info_size 0 started.g_ata_info started.kernel
boot_kernel_lem_example =
    boot_kernel_lem 1 0 0 cmos small_machine small_image zeros (omega arith) small_image-IsPlaced
      zeros-IsCleared (inl (omega arith)) small_machine-HasDevices (omega arith)
