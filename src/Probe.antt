-- ===== src/Probe.antt =====
-- The programs that CMake wrote into client/build to learn about the compiler.
pub mod Macros
pub mod Digits
pub mod Vendors
pub mod Compiler
pub mod Platform
pub mod Architecture
pub mod Standard
pub mod Strings
pub mod Main
pub mod SizeOf
pub mod C
mod Examples
