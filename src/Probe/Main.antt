-- ===== src/Probe/Main.antt =====
-- CMakeCXXCompilerId.cpp: `main`, which reads each text at the index `argc`.
pub mod Bounds
use scalable_key_value_store.Prelude.{
  ℕ, ◌+◌, Bool, true, false, ◌&&◌, Option, none, some, List, [], ◌∷◌, ◌++◌, get_elem?,
  if◌then◌else◌,
}
use scalable_key_value_store.Probe.Macros.{
  Text, Macros, has, is_some, Part, absent, undeclared, part, Facts,
}
use scalable_key_value_store.Probe.Compiler.{identify}
use scalable_key_value_store.Probe.Strings.{
  info_compiler, info_simulate, info_version, info_version_internal, info_simulate_version,
  info_platform, info_cray, info_language_standard_default, info_language_extensions_default,
}

-- A compiler refuses the program, or a run of it reads outside of a text, or returns.
pub data Run : Type 0 where
  refused undefined : Run
  returns : ℕ → Run

abbrev pub is_declared : Part → Bool
is_declared absent = true
is_declared undeclared = false
is_declared (part t) = true

-- whether the program compiles: no text names something that nothing declares, and the compiler
-- is one of C++
unfoldable pub compiles : Macros → Facts → Bool
compiles m f =
    has m "__cplusplus"
    && is_declared (info_version f)
    && is_declared (info_version_internal f)
    && is_declared (info_simulate_version f)

abbrev pub is_defined : Part → Bool
is_defined absent = false
is_defined undeclared = true
is_defined (part t) = true

abbrev pub text_of : Part → List Text
text_of absent = []
text_of undeclared = []
text_of (part t) = t ∷ []

-- `# ifdef X` around the use of a text
abbrev pub when : Bool → List Text → List Text
when true texts = texts
when false texts = []

-- the texts that `main` reads, in their order
unfoldable pub required : Macros → Facts → List Text
required m f =
    (info_compiler m ∷ info_platform m ∷ [])
    ++ when (is_defined f.version.major) (text_of (info_version f))
    ++ when (is_defined f.internal) (text_of (info_version_internal f))
    ++ text_of (info_simulate f)
    ++ when (is_defined f.simulate.major) (text_of (info_simulate_version f))
    ++ when (has m "__CRAYXT_COMPUTE_LINUX_TARGET") (info_cray ∷ [])
    ++ info_language_standard_default m ∷ info_language_extensions_default m ∷ []

abbrev pub plus : Option ℕ → ℕ → Option ℕ
plus none n = none
plus (some c) n = some (n + c)

abbrev pub add_to : Option ℕ → Option ℕ → Option ℕ
add_to none c = none
add_to (some n) c = plus c n

-- `require += text[argc]` for each text; behind a text stands its zero byte
unfoldable pub sum_at : ℕ → Option ℕ → List Text → Option ℕ
sum_at argc n [] = n
sum_at argc n (t ∷ texts) = sum_at argc (add_to n (get_elem? (t ++ 0 ∷ []) argc)) texts

abbrev pub run_of : Option ℕ → Run
run_of none = undefined
run_of (some n) = returns n

unfoldable pub main : Macros → ℕ → Run
main m argc =
    let facts = (identify m).facts m in
    if compiles m facts then run_of (sum_at argc (some 0) (required m facts)) else refused
