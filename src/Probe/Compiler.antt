-- ===== src/Probe/Compiler.antt =====
-- CMakeCXXCompilerId.cpp: the `#if` that picks COMPILER_ID.
pub mod Chain
use scalable_key_value_store.Prelude.{List, [], ◌∷◌, if◌then◌else◌}
use scalable_key_value_store.Probe.Macros.{Macros, Branch, Facts, Text}
use scalable_key_value_store.Probe.Vendors.Intel.{intel, intel_llvm}
use scalable_key_value_store.Probe.Vendors.Classic.{
  comeau, path_scale, embarcadero, borland, watcom, open_watcom, sun_pro, hp, compaq,
}
use scalable_key_value_store.Probe.Vendors.Ibm.{z_os, ibm_clang, xl_clang, xl, visual_age}
use scalable_key_value_store.Probe.Vendors.Systems.{
  nvhpc, pgi, cray, ti, fujitsu_clang, fujitsu, ghs, sco, arm_cc,
}
use scalable_key_value_store.Probe.Vendors.Clang.{apple_clang, arm_clang, clang}
use scalable_key_value_store.Probe.Vendors.Native.{lcc, gnu, msvc, adsp, iar, hp_native, unknown}

-- The branches in their order, but for the last `#else`.
abbrev pub branches : List Branch
branches =
    comeau ∷ intel ∷ intel_llvm ∷ path_scale ∷ embarcadero ∷ borland ∷ watcom ∷ open_watcom
    ∷ sun_pro ∷ hp ∷ compaq ∷ z_os ∷ ibm_clang ∷ xl_clang ∷ xl ∷ visual_age ∷ nvhpc ∷ pgi ∷ cray
    ∷ ti ∷ fujitsu_clang ∷ fujitsu ∷ ghs ∷ sco ∷ arm_cc ∷ apple_clang ∷ arm_clang ∷ clang ∷ lcc
    ∷ gnu ∷ msvc ∷ adsp ∷ iar ∷ hp_native ∷ []

-- `#if`, `#elif` and `#else`: the first branch whose condition holds
unfoldable pub first : Macros → List Branch → Branch
first m [] = unknown
first m (b ∷ rest) = let others = first m rest in if b.holds m then b else others

unfoldable pub identify : Macros → Branch
identify m = first m branches
