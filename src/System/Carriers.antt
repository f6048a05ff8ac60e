-- ===== src/System/Carriers.antt =====
-- The three backends of stdiobus/backends as carriers of the client's messages, and what each delivers.
pub mod Process
pub mod Container
pub mod Embedded
pub mod Callbacks
pub mod Wakes
