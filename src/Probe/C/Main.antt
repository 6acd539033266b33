-- ===== src/Probe/C/Main.antt =====
-- CMakeCCompilerId.c: the texts that are not those of CMakeCXXCompilerId.cpp, and `main`.
use scalable_key_value_store.Prelude.{
  ℕ, Bool, not, ◌&&◌, Option, none, some, List, [], ◌∷◌, ◌++◌, if◌then◌else◌,
}
use scalable_key_value_store.Probe.Macros.{Text, codes, Macros, has, Facts}
use scalable_key_value_store.Probe.Strings.{
  info_simulate, info_version, info_version_internal, info_simulate_version, info_platform,
  info_arch, info_cray, info_language_extensions_default,
}
use scalable_key_value_store.Probe.Main.{
  Run, refused, is_declared, is_defined, text_of, when, sum_at, run_of,
}
use scalable_key_value_store.Probe.C.Vendors.{c_identify}
use scalable_key_value_store.Probe.C.Standard.{c_version}

unfoldable pub c_info_compiler : Macros → Text
c_info_compiler m = codes "INFO:compiler[" ++ codes (c_identify m).compiler_id ++ b']' ∷ []

unfoldable pub c_info_standard : Macros → Text
c_info_standard m = codes "INFO:standard_default[" ++ c_version m ++ b']' ∷ []

-- whether the program compiles: no text names something that nothing declares, and the compiler
-- is not one of C++
unfoldable pub c_compiles : Macros → Facts → Bool
c_compiles m f =
    not (has m "__cplusplus")
    && is_declared (info_version f)
    && is_declared (info_version_internal f)
    && is_declared (info_simulate_version f)

-- the texts that `main` reads, in their order
unfoldable pub c_required : Macros → Facts → List Text
c_required m f =
    (c_info_compiler m ∷ info_platform m ∷ info_arch m ∷ [])
    ++ when (is_defined f.version.major) (text_of (info_version f))
    ++ when (is_defined f.internal) (text_of (info_version_internal f))
    ++ text_of (info_simulate f)
    ++ when (is_defined f.simulate.major) (text_of (info_simulate_version f))
    ++ when (has m "__CRAYXT_COMPUTE_LINUX_TARGET") (info_cray ∷ [])
    ++ c_info_standard m ∷ info_language_extensions_default m ∷ []

-- Under `__18CXX` the program is `void main() {}`, which has no status to return.
unfoldable pub c_main : Macros → ℕ → Option Run
c_main m argc =
    let facts = (c_identify m).facts m in
    if not (c_compiles m facts)
    then some refused
    else if has m "__18CXX"
    then none
    else some (run_of (sum_at argc (some 0) (c_required m facts)))
