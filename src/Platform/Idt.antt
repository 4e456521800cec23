-- ===== src/Platform/Idt.antt =====
-- kernel/platform/i386/idt.c. The table is a list of 256 entries. The stubs `isr_0` to `isr_47` are
-- assembly (idt.s), so their addresses are a parameter, and so is the address of `g_idt`.
pub mod Gates
use aeon_486_os.Base.{ℕ, zero, suc, ◌+◌, ◌-◌, ◌*◌, ◌%◌, ◌^◌, List, ◌∷◌, replicate, set, bit_and}
use aeon_486_os.Base.Word.{shr}
use aeon_486_os.Platform.Hal.{Trace, Event, Message, kprintf}

pub record IdtEntry : Type 0 where
  pub entry_point_address_lo : ℕ
  pub segment_selector : ℕ
  pub always0 : ℕ
  pub flags : ℕ
  pub entry_point_address_hi : ℕ

abbrev pub kernel_code_segment_index : ℕ
kernel_code_segment_index = 0x08

-- What `memset` with 0 leaves of an entry.
abbrev pub zero_entry : IdtEntry
zero_entry = record {
  entry_point_address_lo = 0;
  segment_selector = 0;
  always0 = 0;
  flags = 0;
  entry_point_address_hi = 0;
}

unfoldable pub idt_entry_of : (base segment_selector flags : ℕ) → IdtEntry
idt_entry_of base segment_selector flags = record {
  entry_point_address_lo = bit_and base 0xFFFF % 2 ^ 16;
  segment_selector = segment_selector % 2 ^ 16;
  always0 = 0;
  flags = flags % 2 ^ 8;
  entry_point_address_hi = bit_and (shr base 16) 0xFFFF % 2 ^ 16;
}

-- The index is a byte, and the table has 256 entries.
unfoldable pub idt_set_gate :
    List IdtEntry → (index base segment_selector flags : ℕ) → List IdtEntry
idt_set_gate g_idt index base segment_selector flags =
    set g_idt (index % 2 ^ 8) (idt_entry_of base segment_selector flags)

-- The calls of `idt_set_gate` for `count` interrupts from `index` on; each takes its own stub.
unfoldable pub set_gates : (isr : ℕ → ℕ) → (count index : ℕ) → List IdtEntry → List IdtEntry
set_gates isr zero index g_idt = g_idt
set_gates isr (suc count) index g_idt =
    set_gates isr count (index + 1)
      (idt_set_gate g_idt index (isr index) kernel_code_segment_index 0x8E)

pub record Idt : Type 0 where
  pub entries : List IdtEntry
  pub trace : Trace

unfoldable pub idt_init : (isr : ℕ → ℕ) → (address : ℕ) → Trace → Idt
idt_init isr address trace =
    let started = kprintf trace Message.setting_up_idt in
    let loaded = Event.lidt (8 * 256 - 1) (address % 2 ^ 32) ∷ started in
    record {
      entries = set_gates isr 48 0 (replicate 256 zero_entry);
      trace = kprintf loaded Message.idt_done;
    }
