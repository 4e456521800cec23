-- ===== src/Platform/Stubs.antt =====
-- kernel/platform/i386/idt.s with `registers_t` of idt.c: what an interrupt, its stub and the common
-- stub do to the stack, whose words are a list with the top first. Whether the processor pushes an
-- error code with an interrupt is a parameter. `isr_handler` reads its argument, which lies on the
-- stack, and leaves the stack as it is. The flag that allows interrupts is not part of the state.
-- `%esp` is a register of its own beside the words, and goes down and up with them.
pub mod Return
use aeon_486_os.Base.{ℕ, ◌+◌, ◌*◌, ◌/◌, ◌%◌, ◌^◌, List, [], ◌∷◌, Option, none, some}
use aeon_486_os.Base.{ltb, leb, ◌==◌, ◌&&◌, ◌||◌, if◌then◌else◌, Outcome, ok, fault, ◌>>=◌, read}
use aeon_486_os.Base.Word.{u32, sub32}
use aeon_486_os.Platform.Idt.{kernel_code_segment_index}

-- The registers that `pusha` pushes.
pub record General : Type 0 where
  pub edi : ℕ
  pub esi : ℕ
  pub ebp : ℕ
  pub esp : ℕ
  pub ebx : ℕ
  pub edx : ℕ
  pub ecx : ℕ
  pub eax : ℕ

-- What the processor returns to.
pub record Frame : Type 0 where
  pub eip : ℕ
  pub cs : ℕ
  pub eflags : ℕ

pub record Cpu : Type 0 where
  pub general : General
  pub ds : ℕ
  pub stack : List ℕ

pub data Stub : Type 0 where
  isr_errcode isr_noerrcode : Stub

-- Which macro makes the stub of a vector.
unfoldable pub stub_of : ℕ → Stub
stub_of idx = if idx == 8 || (leb 10 idx && leb idx 14) then isr_errcode else isr_noerrcode

unfoldable pub push : ℕ → Cpu → Cpu
push value cpu =
    let g = cpu.general in
    record cpu { general = record g { esp = sub32 g.esp 4 }; stack = value ∷ cpu.stack }

-- The processor enters the stub, on the same stack.
unfoldable pub interrupt : Frame → (error : Option ℕ) → Cpu → Cpu
interrupt frame none cpu = push frame.eip (push frame.cs (push frame.eflags cpu))
interrupt frame (some code) cpu = push code (push frame.eip (push frame.cs (push frame.eflags cpu)))

unfoldable pub run_stub : Stub → (idx : ℕ) → Cpu → Cpu
run_stub isr_errcode idx cpu = push idx (push 0 cpu)
run_stub isr_noerrcode idx cpu = push idx cpu

-- The `%esp` that is pushed is the one before the first of these words.
unfoldable pub pusha : Cpu → Cpu
pusha cpu =
    let g = cpu.general in
    push g.edi
      (push g.esi (push g.ebp (push g.esp (push g.ebx (push g.edx (push g.ecx (push g.eax cpu)))))))

-- The common stub up to the call of `isr_handler`. The low half of `eax` holds `ds`.
unfoldable pub common_entry : Cpu → Cpu
common_entry cpu =
    let saved = pusha cpu in
    record (push (cpu.general.eax / 2 ^ 16 * 2 ^ 16 + cpu.ds % 2 ^ 16) saved) { ds = 0x10 }

pub record Registers : Type 0 where
  pub ds : ℕ
  pub general : General
  pub int_no : ℕ
  pub err_code : ℕ
  pub frame : Frame

-- The argument of `isr_handler`, less the two words that the processor pushes only when it changes
-- the stack.
unfoldable pub registers_of : (stack : List ℕ) → Outcome Registers
registers_of stack = do
  ds ← read stack 0
  edi ← read stack 1
  esi ← read stack 2
  ebp ← read stack 3
  esp ← read stack 4
  ebx ← read stack 5
  edx ← read stack 6
  ecx ← read stack 7
  eax ← read stack 8
  int_no ← read stack 9
  err_code ← read stack 10
  eip ← read stack 11
  cs ← read stack 12
  eflags ← read stack 13
  ok (record {
    ds = ds;
    general = record {
      edi = edi;
      esi = esi;
      ebp = ebp;
      esp = esp;
      ebx = ebx;
      edx = edx;
      ecx = ecx;
      eax = eax;
    };
    int_no = int_no;
    err_code = err_code;
    frame = record { eip = eip; cs = cs; eflags = eflags };
  })

-- How `iret` ends: in the kernel's code segment, by a change of the ring, for which it takes two more
-- words, or by the exception that a selector raises which is none of a code segment.
pub data Exit : Type 0 where
  returned : Frame → Cpu → Exit
  to_ring_3 : Exit
  general_protection : (selector : ℕ) → Exit

-- The selector of the code segment of ring 3 in the table of gdt.c, with that ring in its low bits.
abbrev pub user_code_segment : ℕ
user_code_segment = 3 * 8 + 3

-- `iret` with its three words, in ring 0. The table of gdt.c has a code segment at 8, of ring 0, and
-- one at 24, of ring 3. A selector is a halfword.
unfoldable pub iret : Frame → Cpu → Exit
iret frame cpu =
    let selector = frame.cs % 2 ^ 16 in
    if selector == kernel_code_segment_index
    then returned frame cpu
    else if selector == user_code_segment
    then to_ring_3
    else general_protection selector

-- The common stub from the return of `isr_handler` on. `popa` leaves `esp` out; the two words of
-- `add $8, %esp` are dropped, and `iret` takes three.
unfoldable pub common_exit : Cpu → Outcome Exit
common_exit cpu = elim cpu.stack [
  | ds ∷ edi ∷ esi ∷ ebp ∷ esp ∷ ebx ∷ edx ∷ ecx ∷ eax ∷ first ∷ second ∷ eip ∷ cs ∷ eflags ∷ rest ↦
      ok (
        iret (record { eip = eip; cs = cs; eflags = eflags })
          (record {
            general = record {
              edi = edi;
              esi = esi;
              ebp = ebp;
              esp = u32 (cpu.general.esp + 14 * 4);
              ebx = ebx;
              edx = edx;
              ecx = ecx;
              eax = eax;
            };
            ds = ds % 2 ^ 16;
            stack = rest;
          }))
  | _ ↦ fault
]
