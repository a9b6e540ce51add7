-- ===== src/Gui.antt =====
-- app/main_gui.cpp: what the window's thread and its worker threads share, the workers, the messages of
-- the page, the frames of telemetry, and the window. The embedded browser and the page are left out.
pub mod State
pub mod Jobs
pub mod Threads
pub mod Messages
pub mod Telemetry
pub mod Events
pub mod Window
pub mod Page
pub mod Place
pub mod Counted
