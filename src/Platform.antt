-- ===== src/Platform.antt =====
-- kernel/platform/i386: ports, segment and interrupt descriptors, the interrupt controllers, and the
-- handlers and stubs of interrupts.
pub mod Hal
pub mod Gdt
pub mod Idt
pub mod Irq
pub mod Handlers
pub mod Stubs
pub mod Messages
mod Tests
