-- ===== src/Probe/C/Chain.antt =====
-- Which branch CMakeCCompilerId.c takes.

use text.Mathlib.TextEquality.{eq_iff}
use scalable_key_value_store.Prelude.{
  ◌≡◌, ◌≢◌, refl, Bool, true, ◌||◌, take, drop, Bool-cases, inl, inr, arith,
}
use scalable_key_value_store.Probe.Macros.{Macros, has}
use scalable_key_value_store.Probe.Compiler.Chain.{is_other, held_other}
use scalable_key_value_store.Probe.Vendors.Intel.{intel}
use scalable_key_value_store.Probe.Vendors.Systems.{nvhpc}
use scalable_key_value_store.Probe.Vendors.Clang.{clang}
use scalable_key_value_store.Probe.C.Vendors.{c_branches, c_identify, tiny_cc}

abbrev imitates : Macros → Bool
imitates m =
    has m "__clang__" || has m "__INTEL_COMPILER" || has m "__NVCOMPILER" || has m "__TINYC__"

c_imitator_other : (m : Macros) → imitates m ≡ true → is_other (c_identify m) ≡ true
unfolding c_identify
c_imitator_other m h = elim (Bool-cases (has m "__clang__")) [
  | inl held ↦ held_other m (take 28 c_branches) clang (drop 29 c_branches) refl held
  | inr fails ↦ elim (Bool-cases (has m "__INTEL_COMPILER")) [
    | inl held ↦ held_other m (take 0 c_branches) intel (drop 1 c_branches) refl (rw held refl)
    | inr neither ↦ elim (Bool-cases (has m "__NVCOMPILER")) [
      | inl held ↦ held_other m (take 15 c_branches) nvhpc (drop 16 c_branches) refl held
      | inr last ↦
          held_other m (take 22 c_branches) tiny_cc (drop 23 c_branches) refl (ground arith)
    ]
  ]
]

-- As a compiler of C, one that calls itself Clang, Intel's, NVIDIA's or TinyCC is taken neither for
-- GNU nor for MSVC, whatever else it defines.
pub c_imitator_known :
    (m : Macros)
    → (has m "__clang__" || has m "__INTEL_COMPILER" || has m "__NVCOMPILER" || has m "__TINYC__")
      ≡ true
    → ((c_identify m).compiler_id ≢ "GNU") × ((c_identify m).compiler_id ≢ "MSVC")
c_imitator_known m h =
    let other = c_imitator_other m h in
    let id = (c_identify m).compiler_id in
    (ground (arith, eq_iff id "GNU"), ground (arith, eq_iff id "MSVC"))
