-- ===== src/Probe/Examples.antt =====
-- The programs of client/build under a Clang on Linux.
use Prim.Native.String.{String}
use text.Mathlib.Text.{◌==◌}
use scalable_key_value_store.Prelude.{
  ℕ, ℕ, ◌≡◌, ◌≢◌, refl, Option, none, some, List, [], ◌∷◌, if◌then◌else◌,
}
use scalable_key_value_store.Probe.Macros.{Macros}
use scalable_key_value_store.Probe.Compiler.{identify, first}
use scalable_key_value_store.Probe.Compiler.Chain.{imitator_known}
use scalable_key_value_store.Probe.Main.{refused}
use scalable_key_value_store.Probe.C.Vendors.{c_identify}
use scalable_key_value_store.Probe.C.Main.{c_main, c_compiles}
use scalable_key_value_store.Probe.C.Chain.{c_imitator_known}

abbrev find : List (String × ℕ) → String → Option ℕ
find [] name = none
find ((key, n) ∷ rest) name = if key == name then some n else find rest name

-- what Clang 14 predefines, GNU's macros among them
abbrev clang_macros : Macros
clang_macros = record {
  number_of = find (
      ("__cplusplus", 201703)
      ∷ ("__clang__", 1)
      ∷ ("__clang_major__", 14)
      ∷ ("__clang_minor__", 0)
      ∷ ("__clang_patchlevel__", 6)
      ∷ ("__GNUC__", 4)
      ∷ ("__GNUC_MINOR__", 2)
      ∷ ("__GNUG__", 4)
      ∷ ("__linux__", 1)
      ∷ ("__x86_64", 1)
      ∷ []);
  literal_of = λ name. none;
  spelling_of = λ name. [];
}

clang_found : (identify clang_macros).compiler_id ≡ "Clang"
unfolding identify first
clang_found = refl

imitator_known_example :
    ((identify clang_macros).compiler_id ≢ "GNU") × ((identify clang_macros).compiler_id ≢ "MSVC")
imitator_known_example = imitator_known clang_macros refl

-- what Clang 14 predefines for C
abbrev clang_c_macros : Macros
clang_c_macros = record {
  number_of = find (
      ("__STDC__", 1)
      ∷ ("__STDC_VERSION__", 201710)
      ∷ ("__clang__", 1)
      ∷ ("__clang_major__", 14)
      ∷ ("__clang_minor__", 0)
      ∷ ("__clang_patchlevel__", 6)
      ∷ ("__GNUC__", 4)
      ∷ ("__GNUC_MINOR__", 2)
      ∷ ("__linux__", 1)
      ∷ ("__x86_64", 1)
      ∷ []);
  literal_of = λ name. none;
  spelling_of = λ name. [];
}

c_imitator_known_example :
    ((c_identify clang_c_macros).compiler_id ≢ "GNU")
    × ((c_identify clang_c_macros).compiler_id ≢ "MSVC")
c_imitator_known_example = c_imitator_known clang_c_macros refl

-- As C, it is not compiled: it is a compiler of C++.
clang_refused : c_main clang_macros 1 ≡ some refused
unfolding c_main c_compiles
clang_refused = refl
