-- ===== src/Probe/Standard.antt =====
-- CMakeCXXCompilerId.cpp: CXX_STD, and the standard and the extensions that are on by default.
pub mod Ranges
use scalable_key_value_store.Prelude.{ℕ, Bool, not, ◌&&◌, ◌||◌, ltb, leb, if◌then◌else◌}
use scalable_key_value_store.Probe.Macros.{Text, codes, Macros, has, number}

-- Intel's compiler in the mode of MSVC
abbrev pub is_intel_msvc : Macros → Bool
is_intel_msvc m =
    has m "__INTEL_COMPILER" && has m "_MSVC_LANG" && ltb (number m "_MSVC_LANG") 201403

abbrev pub intel_std : Macros → ℕ
intel_std m =
    if has m "__INTEL_CXX11_MODE__"
    then (if has m "__cpp_aggregate_nsdmi" then 201402 else 201103)
    else 199711

-- the number that the conditions compare
unfoldable pub cxx_std : Macros → ℕ
cxx_std m =
    if is_intel_msvc m
    then intel_std m
    else if has m "_MSC_VER" && has m "_MSVC_LANG"
    then number m "_MSVC_LANG"
    else number m "__cplusplus"

-- the two digits of the standard, as a number
unfoldable pub standard : ℕ → ℕ
standard n =
    if ltb 202002 n
    then 23
    else if ltb 201703 n
    then 20
    else if leb 201703 n
    then 17
    else if leb 201402 n
    then 14
    else if leb 201103 n
    then 11
    else 98

unfoldable pub has_extensions : Macros → Bool
has_extensions m =
    (has m "__clang__" || has m "__GNUC__" || has m "__xlC__" || has m "__TI_COMPILER_VERSION__")
    && not (has m "__STRICT_ANSI__")
