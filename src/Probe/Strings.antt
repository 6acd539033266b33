-- ===== src/Probe/Strings.antt =====
-- CMakeCXXCompilerId.cpp: the texts that CMake looks for in the compiled program.
pub mod RoundTrip
use Prim.Native.String.{String}
use scalable_key_value_store.Prelude.{
  ℕ, ◌+◌, ◌/◌, ◌%◌, Option, none, some, List, [], ◌∷◌, ◌++◌, if◌then◌else◌,
}
use scalable_key_value_store.Probe.Macros.{
  Text, codes, Macros, Part, absent, undeclared, part, Version, Facts, Branch,
}
use scalable_key_value_store.Probe.Compiler.{identify}
use scalable_key_value_store.Probe.Platform.{platform_id}
use scalable_key_value_store.Probe.Architecture.{architecture_id}
use scalable_key_value_store.Probe.Standard.{cxx_std, standard, has_extensions}

abbrev pub prefix : Text → Part → Part
prefix t absent = part t
prefix t undeclared = undeclared
prefix t (part u) = part (t ++ u)

-- `# ifdef X`, then '.' and X, then what is nested in it
abbrev pub dotted : Part → Part → Part
dotted absent nested = part []
dotted undeclared nested = undeclared
dotted (part t) nested = prefix (b'.' ∷ t) nested

-- the numbers of a version, if the major one is defined
unfoldable pub numbers : Version → Part
numbers v = elim v.major [
  | absent ↦ absent
  | undeclared ↦ undeclared
  | part t ↦ prefix t (dotted v.minor (dotted v.patch (dotted v.tweak (part []))))
]

-- a text in its brackets, as an array that is defined if the text is
abbrev pub bracket : Text → Part → Part
bracket name absent = absent
bracket name undeclared = undeclared
bracket name (part t) = part (name ++ t ++ b']' ∷ [])

abbrev pub either : Part → Part → Part
either absent p = p
either undeclared p = undeclared
either (part t) p = part t

unfoldable pub info_compiler : Macros → Text
info_compiler m = codes "INFO:compiler[" ++ codes (identify m).compiler_id ++ b']' ∷ []

abbrev pub simulate_part : Option Text → Part
simulate_part none = absent
simulate_part (some id) = part id

unfoldable pub info_simulate : Facts → Part
info_simulate f = bracket (codes "INFO:simulate[") (simulate_part f.simulate_id)

-- COMPILER_VERSION, and the numbers if it is not defined
unfoldable pub info_version : Facts → Part
info_version f =
    bracket (codes "INFO:compiler_version[") (either f.compiler_version (numbers f.version))

unfoldable pub info_version_internal : Facts → Part
info_version_internal f =
    bracket (codes "INFO:compiler_version_internal[") (either f.internal f.internal_text)

unfoldable pub info_simulate_version : Facts → Part
info_simulate_version f = bracket (codes "INFO:simulate_version[") (numbers f.simulate)

unfoldable pub info_platform : Macros → Text
info_platform m = codes "INFO:platform[" ++ platform_id m ++ b']' ∷ []

unfoldable pub info_arch : Macros → Text
info_arch m = codes "INFO:arch[" ++ architecture_id m ++ b']' ∷ []

-- two digits
abbrev pub standard_text : ℕ → Text
standard_text n = (b'0' + n / 10) ∷ (b'0' + n % 10) ∷ []

unfoldable pub info_language_standard_default : Macros → Text
info_language_standard_default m =
    codes "INFO:standard_default[" ++ standard_text (standard (cxx_std m)) ++ b']' ∷ []

unfoldable pub info_language_extensions_default : Macros → Text
info_language_extensions_default m =
    codes "INFO:extensions_default["
    ++ (if has_extensions m then codes "ON" else codes "OFF")
    ++ b']' ∷ []

abbrev pub info_cray : Text
info_cray = codes "INFO:compiler_wrapper[CrayPrgEnv]"
