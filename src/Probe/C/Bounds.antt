-- ===== src/Probe/C/Bounds.antt =====
-- CMakeCCompilerId.c: for which arguments `main` stays inside of its texts.
use scalable_key_value_store.Probe.Macros.{Macros}
