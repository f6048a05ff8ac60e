-- ===== src/Types.antt =====
-- stdiobus/types.py.
pub mod Enums
pub mod Protocol
pub mod Config
pub mod Options
pub mod Checks
mod Tests
