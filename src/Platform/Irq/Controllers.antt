-- ===== src/Platform/Irq/Controllers.antt =====
-- What reaches the two interrupt controllers.
use aeon_486_os.Base.{ℕ, ◌%◌, ◌^◌, ◌≡◌, refl, arith, ap, ◌∷◌}
use aeon_486_os.Platform.Hal.{
  Trace, Device, written, inportb, outportb, io_wait, kprintf, in_width, Event, Message,
}
use aeon_486_os.Platform.Irq.{pic_remap, irq_init, pic1_command, pic1_data, pic2_command, pic2_data}

byte_twice : (n : ℕ) → n % 2 ^ 8 % 2 ^ 8 ≡ n % 2 ^ 8
byte_twice n = omega arith

-- The mask that the master gives when `irq_init` reads it, and then the slave's.
abbrev pub saved_mask1 : Device → Trace → ℕ
saved_mask1 device trace = device (Event.printed Message.setting_up_irq ∷ trace) pic1_data % 2 ^ 8

abbrev pub saved_mask2 : Device → Trace → ℕ
saved_mask2 device trace =
    device
      (Event.in_port pic1_data (saved_mask1 device trace)
        ∷ Event.printed Message.setting_up_irq
        ∷ trace)
      pic2_data
    % 2 ^ 8

-- `irq_init` starts both controllers, gives them the vectors from 32 and from 40 on, links the slave
-- to line 2 of the master, sets the mode of the 8086, and at last writes back the masks that it has
-- read before its first write. Each list is what a port has been written, the newest value first.
pub irq_init_lem :
    (device : Device) (trace : Trace)
    → (written pic1_command (irq_init device trace) ≡ 0x11 ∷ written pic1_command trace)
      × (written pic2_command (irq_init device trace) ≡ 0x11 ∷ written pic2_command trace)
      × (written pic1_data (irq_init device trace)
          ≡ saved_mask1 device trace ∷ 1 ∷ 4 ∷ 32 ∷ written pic1_data trace)
      × (written pic2_data (irq_init device trace)
          ≡ saved_mask2 device trace ∷ 1 ∷ 2 ∷ 40 ∷ written pic2_data trace)
unfolding irq_init pic_remap inportb outportb io_wait kprintf in_width written
irq_init_lem device trace = (
  refl,
  refl,
  ap (λ m. m ∷ 1 ∷ 4 ∷ 32 ∷ written pic1_data trace) (byte_twice (device _ pic1_data)),
  ap (λ m. m ∷ 1 ∷ 2 ∷ 40 ∷ written pic2_data trace) (byte_twice (device _ pic2_data)),
)
