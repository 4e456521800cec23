-- ===== src/Platform/Irq.antt =====
-- kernel/platform/i386/irq.c, but for `irq_handler`, which Platform.Handlers has.
pub mod Controllers
use aeon_486_os.Base.{ℕ, ◌+◌, ◌-◌, bit_or, Bool, leb, ◌&&◌, if◌then◌else◌}
use aeon_486_os.Platform.Hal.{Trace, Device, Message, inportb, outportb, io_wait, kprintf}
use aeon_486_os.Platform.Hal.Message.{setting_up_irq, irq_done, received_irq, received_interrupt}

abbrev pub pic1_command : ℕ
pic1_command = 0x20

abbrev pub pic1_data : ℕ
pic1_data = pic1_command + 1

abbrev pub pic2_command : ℕ
pic2_command = 0xA0

abbrev pub pic2_data : ℕ
pic2_data = pic2_command + 1

abbrev pub pic_eoi : ℕ
pic_eoi = 0x20

abbrev pub icw1_icw4 : ℕ
icw1_icw4 = 0x01

abbrev pub icw1_init : ℕ
icw1_init = 0x10

abbrev pub icw4_8086 : ℕ
icw4_8086 = 0x01

abbrev pub pic_irq_offset1 : ℕ
pic_irq_offset1 = 32

abbrev pub pic_irq_offset2 : ℕ
pic_irq_offset2 = pic_irq_offset1 + 8

-- `outportb` followed by `io_wait`.
abbrev pub out_and_wait : Trace → ℕ → ℕ → Trace
out_and_wait trace port value = io_wait (outportb trace port value)

unfoldable pub pic_remap : Device → Trace → Trace
pic_remap device trace =
    let a1 = inportb device trace pic1_data in
    let a2 = inportb device a1.trace pic2_data in
    let start1 = out_and_wait a2.trace pic1_command (bit_or icw1_init icw1_icw4) in
    let start2 = out_and_wait start1 pic2_command (bit_or icw1_init icw1_icw4) in
    let offset1 = out_and_wait start2 pic1_data pic_irq_offset1 in
    let offset2 = out_and_wait offset1 pic2_data pic_irq_offset2 in
    let cascade1 = out_and_wait offset2 pic1_data 4 in
    let cascade2 = out_and_wait cascade1 pic2_data 2 in
    let mode1 = out_and_wait cascade2 pic1_data icw4_8086 in
    let mode2 = out_and_wait mode1 pic2_data icw4_8086 in
    let masks1 = outportb mode2 pic1_data a1.value in outportb masks1 pic2_data a2.value

unfoldable pub pic_send_eoi : Trace → ℕ → Trace
pic_send_eoi trace irq =
    let slave = if leb 8 irq then outportb trace pic2_command pic_eoi else trace in
    outportb slave pic1_command pic_eoi

unfoldable pub irq_init : Device → Trace → Trace
irq_init device trace = kprintf (pic_remap device (kprintf trace setting_up_irq)) irq_done
