-- ===== src/Probe/C.antt =====
-- CMakeCCompilerId.c, the sibling of CMakeCXXCompilerId.cpp for C: the same branches but for those of
-- Probe.C.Vendors, its own standard, and one more text in `main`.
pub mod Vendors
pub mod Standard
pub mod Main
pub mod Chain
pub mod Bounds
