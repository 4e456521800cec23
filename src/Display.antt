-- ===== src/Display.antt =====
-- kernel/drivers/display: the text screen and the formatted output.
pub mod Textmode
pub mod Output
pub mod Printing
pub mod Log
mod Tests
