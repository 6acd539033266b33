-- ===== src/Probe/Vendors.antt =====
-- The branches of the `#if` that picks COMPILER_ID in CMakeCXXCompilerId.cpp.
pub mod Intel
pub mod Classic
pub mod Ibm
pub mod Systems
pub mod Clang
pub mod Native
