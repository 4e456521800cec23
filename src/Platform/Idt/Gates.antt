-- ===== src/Platform/Idt/Gates.antt =====
-- The gates that `idt_init` leaves.
use aeon_486_os.Base.{ℕ, zero, suc, ◌+◌, ◌*◌, ◌%◌, ◌/◌, ◌^◌, ◌≡◌, ◌≤◌, ◌<◌, refl, arith, List}
use aeon_486_os.Base.{
  length, get_or, replicate, length-set, length-replicate, get_or-replicate, get_or-set_self,
  get_or-set_ne,
}
use aeon_486_os.Base.{ltb, if◌then◌else◌, ◌∙◌, ℕ_discrete, inl, inr, ◌⊎◌, Bool-cases, subst, sym}
use aeon_486_os.Base.Word.Masks.{bit_and_low}
use aeon_486_os.Platform.Hal.{Trace}
use aeon_486_os.Platform.Idt.{
  IdtEntry, zero_entry, idt_entry_of, idt_set_gate, set_gates, idt_init, kernel_code_segment_index,
}

-- The address that the processor calls.
abbrev entry_point : IdtEntry → ℕ
entry_point e = e.entry_point_address_lo + e.entry_point_address_hi * 2 ^ 16

abbrev pub gate_of : (ℕ → ℕ) → ℕ → IdtEntry
gate_of isr i = idt_entry_of (isr i) kernel_code_segment_index 0x8E

set_gates-other :
    (isr : ℕ → ℕ) (count index i : ℕ) (g_idt : List IdtEntry)
    → (i < index) ⊎ (index + count ≤ i)
    → index + count ≤ 256
    → get_or (set_gates isr count index g_idt) i zero_entry ≡ get_or g_idt i zero_entry
unfolding set_gates idt_set_gate
set_gates-other isr zero index i g_idt out fits = refl
set_gates-other isr (suc count) index i g_idt out fits =
    let place : index % 2 ^ 8 ≡ index = omega arith in
    set_gates-other isr count (index + 1) i _ (omega arith) (omega arith)
    ∙ rw place (get_or-set_ne g_idt index i (gate_of isr index) zero_entry (omega arith))

set_gates-inside :
    (isr : ℕ → ℕ) (count index i : ℕ) (g_idt : List IdtEntry)
    → index ≤ i
    → i < index + count
    → index + count ≤ 256
    → length g_idt ≡ 256
    → get_or (set_gates isr count index g_idt) i zero_entry ≡ gate_of isr i
unfolding set_gates idt_set_gate
set_gates-inside isr zero index i g_idt low high fits size = absurd (omega arith)
set_gates-inside isr (suc count) index i g_idt low high fits size = elim (ℕ_discrete index i) [
  | yes e ↦
      let place : index % 2 ^ 8 ≡ index = omega arith in
      set_gates-other isr count (index + 1) i _ (omega arith) (omega arith)
      ∙ rw (place, e) (get_or-set_self g_idt i (gate_of isr i) zero_entry (omega arith))
  | no ne ↦
      set_gates-inside isr count (index + 1) i _ (omega arith) (omega arith) (omega arith)
        (length-set g_idt (index % 2 ^ 8) (gate_of isr index) ∙ size)
]

entry_point-gate :
    (base : ℕ)
    → base < 2 ^ 32
    → entry_point (idt_entry_of base kernel_code_segment_index 0x8E) ≡ base
unfolding idt_entry_of
entry_point-gate base fits = rw (bit_and_low 16 base, bit_and_low 16 (base / 2 ^ 16)) (omega arith)

-- A present 32-bit interrupt gate (type 0xE) of ring 0 in the segment 8, which leads to `target`.
pub record IsGate (target : ℕ) (e : IdtEntry) : Type 0 where
  pub leads : e.entry_point_address_lo + e.entry_point_address_hi * 65536 ≡ target
  pub low_half : e.entry_point_address_lo < 65536
  pub selector : e.segment_selector ≡ 8
  pub nothing : e.always0 ≡ 0
  pub kind : e.flags % 16 ≡ 0xE
  pub ring : e.flags / 32 % 4 ≡ 0
  pub present : e.flags / 128 ≡ 1
  pub system : e.flags / 16 % 2 ≡ 0

-- An entry of zeros, which is not present.
pub record IsNoGate (e : IdtEntry) : Type 0 where
  pub no_low : e.entry_point_address_lo ≡ 0
  pub no_high : e.entry_point_address_hi ≡ 0
  pub no_selector : e.segment_selector ≡ 0
  pub no_nothing : e.always0 ≡ 0
  pub no_flags : e.flags ≡ 0

gate_of-IsGate : (isr : ℕ → ℕ) (i : ℕ) → isr i < 2 ^ 32 → IsGate (isr i) (gate_of isr i)
unfolding idt_entry_of
gate_of-IsGate isr i fits = record {
  leads = entry_point-gate (isr i) fits;
  low_half = omega arith;
  selector = refl;
  nothing = refl;
  kind = refl;
  ring = refl;
  present = refl;
  system = refl;
}

zero_entry-IsNoGate : IsNoGate zero_entry
zero_entry-IsNoGate = record {
  no_low = refl;
  no_high = refl;
  no_selector = refl;
  no_nothing = refl;
  no_flags = refl;
}

-- What the entry of an interrupt is: a gate to its own stub up to 47, zeros from 48 on.
unfoldable pub IsEntry : (ℕ → ℕ) → ℕ → IdtEntry → Type 0
IsEntry isr i e = if ltb i 48 then IsGate (isr i) e else IsNoGate e

-- After `idt_init`, and if each stub has a 32-bit address, the entries of the interrupts 0 to 47 are
-- present 32-bit interrupt gates of ring 0 in the segment 8 that lead to their own stubs, and the
-- entries of the others are zeros.
pub idt_init_lem :
    (isr : ℕ → ℕ) (address : ℕ) (trace : Trace) (i : ℕ)
    → ((k : ℕ) → isr k < 2 ^ 32)
    → IsEntry isr i (get_or (idt_init isr address trace).entries i zero_entry)
unfolding idt_init IsEntry
idt_init_lem isr address trace i fits =
    let table = replicate 256 zero_entry in
    let size = length-replicate 256 zero_entry in
    elim (Bool-cases (ltb i 48)) [
      | inl here ↦
          let entry =
            set_gates-inside isr 48 0 i table (omega arith) (ground arith) (omega arith) size in
          rw here (subst (IsGate (isr i)) (sym entry) (gate_of-IsGate isr i (fits i)))
      | inr past ↦
          let entry =
            set_gates-other isr 48 0 i table (inr (ground arith)) (omega arith)
            ∙ get_or-replicate 256 i zero_entry in
          rw past (subst IsNoGate (sym entry) zero_entry-IsNoGate)
    ]
