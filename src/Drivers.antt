-- ===== src/Drivers.antt =====
-- Device code: kernel/IRQ/scancode.c, kernel/time.c and kernel/drivers/ide.c.
pub mod Keyboard
pub mod Clock
pub mod Ide
