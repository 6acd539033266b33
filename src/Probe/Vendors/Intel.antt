-- ===== src/Probe/Vendors/Intel.antt =====
-- CMakeCXXCompilerId.cpp: the two compilers of Intel.
use scalable_key_value_store.Prelude.{
  ℕ, ◌/◌, ◌%◌, Bool, ◌&&◌, ◌||◌, Option, none, some, ltb, ◌==◌, if◌then◌else◌,
}
use scalable_key_value_store.Probe.Macros.{
  Text, codes, Macros, has, number, absent, part, Version, no_version, no_facts, Branch,
}
use scalable_key_value_store.Probe.Digits.{dec, dec_of, dec_whole, dec_if}

-- SIMULATE_ID, defined for MSVC and then for GNU: where both hold, the later definition stands.
abbrev pub simulate_either : Macros → Option Text
simulate_either m =
    if has m "__GNUC__"
    then some (codes "GNU")
    else if has m "_MSC_VER"
    then some (codes "MSVC")
    else none

-- The later definition stands here too.
abbrev pub simulate_either_version : Macros → Version
simulate_either_version m = record no_version {
  major =
      if has m "__GNUC__"
      then dec_whole m "__GNUC__"
      else if has m "__GNUG__"
      then dec_whole m "__GNUG__"
      else if has m "_MSC_VER"
      then dec_of m "_MSC_VER" (λ v. v / 100)
      else absent;
  minor =
      if has m "__GNUC_MINOR__"
      then dec_whole m "__GNUC_MINOR__"
      else if has m "_MSC_VER"
      then dec_of m "_MSC_VER" (λ v. v % 100)
      else absent;
  patch = dec_if m "__GNUC_PATCHLEVEL__";
}

-- whether `__INTEL_COMPILER` is a version, a revision and a patch in one number
abbrev pub is_vrp : ℕ → Bool
is_vrp n = ltb n 2021 || n == 202110 || n == 202111

abbrev pub intel_version : Macros → Version
intel_version m =
    if is_vrp (number m "__INTEL_COMPILER")
    then record {
      major = dec_of m "__INTEL_COMPILER" (λ v. v / 100);
      minor = dec_of m "__INTEL_COMPILER" (λ v. v / 10 % 10);
      patch =
          if has m "__INTEL_COMPILER_UPDATE"
          then dec_whole m "__INTEL_COMPILER_UPDATE"
          else dec_of m "__INTEL_COMPILER" (λ v. v % 10);
      tweak = dec_if m "__INTEL_COMPILER_BUILD_DATE";
    }
    else record {
      major = dec_whole m "__INTEL_COMPILER";
      minor = dec_whole m "__INTEL_COMPILER_UPDATE";
      patch = part (dec 0);
      tweak = dec_if m "__INTEL_COMPILER_BUILD_DATE";
    }

abbrev pub intel : Branch
intel = record {
  compiler_id = "Intel";
  holds = λ m. has m "__INTEL_COMPILER" || has m "__ICC";
  facts = λ m. record no_facts {
    version = intel_version m;
    simulate_id = simulate_either m;
    simulate = simulate_either_version m;
  };
}

-- six digits or eight
abbrev pub intel_llvm_version : Macros → Version
intel_llvm_version m =
    if ltb (number m "__INTEL_LLVM_COMPILER") 1000000
    then record no_version {
      major = dec_of m "__INTEL_LLVM_COMPILER" (λ v. v / 100);
      minor = dec_of m "__INTEL_LLVM_COMPILER" (λ v. v / 10 % 10);
      patch = dec_of m "__INTEL_LLVM_COMPILER" (λ v. v % 10);
    }
    else record no_version {
      major = dec_of m "__INTEL_LLVM_COMPILER" (λ v. v / 10000);
      minor = dec_of m "__INTEL_LLVM_COMPILER" (λ v. v / 100 % 100);
      patch = dec_of m "__INTEL_LLVM_COMPILER" (λ v. v % 100);
    }

abbrev pub intel_llvm : Branch
intel_llvm = record {
  compiler_id = "IntelLLVM";
  holds =
      λ m. (has m "__clang__" && has m "__INTEL_CLANG_COMPILER") || has m "__INTEL_LLVM_COMPILER";
  facts = λ m. record no_facts {
    version = intel_llvm_version m;
    simulate_id = simulate_either m;
    simulate = simulate_either_version m;
  };
}
