-- ===== src/Stdio.antt =====
-- The stdio of lib/payload/libc-shim.c: buffered streams over file descriptors.
pub mod File
pub mod Nointr
pub mod Buffer
pub mod Output
pub mod Setup
pub mod Utf8
pub mod Close
pub mod Input
mod Sim
mod Tests
