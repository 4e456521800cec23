-- ===== src/Lib.antt =====
-- The aeon 486 kernel: its memory management, text screen, disk, platform code and C library.
--
-- The kernel is one C program for the i386 without an operating system below it. The boot code (boot.s)
-- fills the page tables, switches paging on and calls `kernel_main`, which sets
-- up the segments (gdt), the screen (textmode), the interrupt table (idt) and the interrupt
-- controllers (irq), then the physical memory allocator (memory), which maps the frames that it
-- hands out by the page tables (paging), and the disk driver (ata). Interrupts come to
-- `isr_handler`, which prints and acknowledges them. All of it stands on the ports (hal) and the C library
-- (klibc).
--
-- Which file models which part; functions have the names that they have in C:
--
--   Base               shared names: tests and lists over native numbers, `Outcome`, 32-bit words
--   Memory.Paging      kernel/memory/paging.c and paging.h: the three page tables of the kernel as one
--                      list of entries; `page`, `page_unaligned`, `unpage`, `get_physical_address`,
--                      `compute_highest_free_address`
--   Memory.Allocator   kernel/memory/memory.c and memory.h: the map of taken blocks and the two searches
--                      in it; `mem_initialize`, `kmalloc`, `kfree`, `align`; what it promises, as
--                      blocks without words and addresses, is in Memory.Allocator.Blocks
--   Memory.Reached     the states that these routines lead to together
--   Display.Textmode   kernel/drivers/display/textmode.c: the screen at 0xB8000 in a memory of bytes
--   Display.Output     kernel/drivers/display/display.c: `kvprintf` as the calls that it makes; what a
--                      format means is in Display.Output.Format
--   Display.Printing   the loops over the displays and the mutex of display.c, on the screen
--   Display.Log        each call of `kprintf` and of `panic` in the kernel with its text, and the macro
--                      `panic` of kernel/drivers/display/display.h
--   Mutex              kernel/lib/mutex.c: the lock alone, and its steps among several tasks
--   Hexdump            kernel/lib/hexdump.c: `khexdump` as its calls of `kprintf`
--   Ata                kernel/drivers/block/ata.c: reading a sector
--   Ata.Layout         kernel/drivers/block/ata.h: what a drive says of itself, member by member, with
--                      the rules by which the compiler lays the members out
--   Ata.Identify       kernel/drivers/block/ata.c: finding the drives
--   Main               kernel/main.c: `kernel_main`, `play_sound`, `nosound`, and `mem_print_info`;
--                      Main.Log has the messages of a whole start, Main.BootScreen their text
--   Startup            kernel/boot.s and kernel/linker.ld: the loops and stores that fill the page tables, on
--                      a memory of words; Startup.translate is the processor's walk of the tables, and
--                      Startup.Start has `kernel_main` behind the boot code
--   Platform.Hal       kernel/platform/i386/hal.c: port accesses as a trace of events
--   Platform.Messages  what of a trace was printed
--   Platform.Gdt       kernel/platform/i386/gdt.c and gdt.h: segment descriptors
--   Platform.Idt       kernel/platform/i386/idt.c: interrupt descriptors
--   Platform.Irq       kernel/platform/i386/irq.c: the interrupt controllers
--   Platform.Handlers  `irq_handler` of irq.c and `isr_handler` of idt.c, with `kprintf` on the displays
--   Platform.Stubs     kernel/platform/i386/idt.s, and `registers_t` of idt.c: what an interrupt and its
--                      stub do to the stack
--   Klibc.Memory       klibc/private/memory.c: `memcpy`, `memset16`, `memset`
--   Klibc.Strings      klibc/private/string.c, ctype.c and stdlib.c: `strlen`, `isprint`, `itoa`, `itoa_s`
--
-- The files below a component hold its proofs and are named for what they prove; Tests holds concrete
-- runs. A global variable of the source is passed on explicitly: the page tables and the allocator are
-- the record `Kernel`, `display` is a part of `Screen`, and what reaches the devices is a `Trace`, the
-- newest event first. A routine that can fail returns `Outcome`: `ok` with its result, `panic` with the
-- reason, or `fault` for an access outside of an array, which C leaves undefined.
--
-- Numbers are native and unsigned; each place where the source wraps at 8, 16 or 32 bits writes the
-- remainder out. Loops over arrays recurse on what is left of them. The loops whose end depends on data
-- run on a number of rounds: `unpage_from` has one for each entry of the tables and one more, since each
-- round looks at the next entry; the digit loop of `itoa` has one more than its buffer of 32 digits, since
-- a round without room stores behind the buffer; the loop of `kvprintf` has one more than the format has
-- characters, since each round moves on in it; the loops of the boot code have one more than a table has
-- entries, and two more than the kernel has whole pages, whatever their counter says. The loops that wait for a disk have no bound in the source:
-- there the fuel is a parameter, and `Polled` has an end of its own for fuel that is used up. The rows of a
-- dump are as many as its bytes at most, since each row takes a byte.
--
-- Parameters stand for what is not C code of the kernel: the answers of the devices, among them the
-- CMOS registers with the size of the memory, which Memory.Allocator takes as a function and Main reads
-- by their ports; the addresses of the assembly stubs and of the tables that the processor is told;
-- the page tables, where `kernel_main` is looked at alone; what the boot loader leaves in the registers
-- and in the memory; where the linker puts the page tables and the end of the kernel; the name of the
-- file in a panic; whether the processor pushes an error code with an interrupt.
--
-- Where the platform code, the disk driver and `kernel_main` print, a call of `kprintf` is an event with
-- its arguments, and Display.Log says what each of them puts on the screen; the ports of the cursor, which
-- the screen writes, are then not in the trace. The interrupt handlers call `kprintf` itself, so that there
-- the screen, its mutex and its ports are part of the state.
--
-- Not modelled: the processor's own state (control and segment registers but `ds`, the stack pointer that
-- the boot code sets, the translation buffer, the interrupt flag), which only assembly touches; how the
-- compiler passes variable arguments; the multiboot header but for the magic number, since nothing else
-- of it is used; the floppy driver, which the preprocessor disables.
pub mod Ata
pub mod Base
pub mod Display
pub mod Hexdump
pub mod Klibc
pub mod Main
pub mod Memory
pub mod Mutex
pub mod Platform
pub mod Startup
