-- ===== src/Backends.antt =====
-- stdiobus/backends: the backends behind the client.
pub mod Ring
pub mod Subprocess
pub mod Text
pub mod Utf8
pub mod Docker
pub mod Native
pub mod Introspection
pub mod Bindings
mod Tests
