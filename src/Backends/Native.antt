-- ===== src/Backends/Native.antt =====
-- stdiobus/backends/native.py: the backend in the process.
pub mod State
pub mod Starting
pub mod Operations
pub mod Questions
pub mod Events
pub mod Contract
pub mod Driven
pub mod Kept
pub mod History
pub mod Drain
pub mod Echo
