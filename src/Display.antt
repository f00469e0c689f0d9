-- ===== src/Display.antt =====
-- internal/display: the loop of the panel, its buttons, what its screen shows and how that is sent, the
-- buffer behind its page of logs, and the boot splash.
pub mod ServiceLog
pub mod Status
pub mod Panel
pub mod Buttons
pub mod Rgb565
pub mod Lines
pub mod Splash
pub mod Pages
