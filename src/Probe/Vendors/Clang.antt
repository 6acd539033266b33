-- ===== src/Probe/Vendors/Clang.antt =====
-- CMakeCXXCompilerId.cpp: the compilers that define `__clang__`, after those above that do so too.
use scalable_key_value_store.Prelude.{◌/◌, ◌%◌, ◌&&◌, Option, none, some, if◌then◌else◌}
use scalable_key_value_store.Probe.Macros.{
  Text, codes, Macros, has, Version, no_version, no_facts, Branch,
}
use scalable_key_value_store.Probe.Digits.{dec_of, dec_whole}

abbrev pub simulate_msvc : Macros → Option Text
simulate_msvc m = if has m "_MSC_VER" then some (codes "MSVC") else none

abbrev pub simulate_msvc_version : Macros → Version
simulate_msvc_version m =
    if has m "_MSC_VER"
    then record no_version {
      major = dec_of m "_MSC_VER" (λ v. v / 100);
      minor = dec_of m "_MSC_VER" (λ v. v % 100);
    }
    else no_version

abbrev pub apple_clang : Branch
apple_clang = record {
  compiler_id = "AppleClang";
  holds = λ m. has m "__clang__" && has m "__apple_build_version__";
  facts = λ m. record no_facts {
    version = record no_version {
      major = dec_whole m "__clang_major__";
      minor = dec_whole m "__clang_minor__";
      patch = dec_whole m "__clang_patchlevel__";
      tweak = dec_whole m "__apple_build_version__";
    };
    simulate_id = simulate_msvc m;
    simulate = simulate_msvc_version m;
  };
}

abbrev pub arm_clang : Branch
arm_clang = record {
  compiler_id = "ARMClang";
  holds = λ m. has m "__clang__" && has m "__ARMCOMPILER_VERSION";
  facts = λ m. record no_facts {
    version = record no_version {
      major = dec_of m "__ARMCOMPILER_VERSION" (λ v. v / 1000000);
      minor = dec_of m "__ARMCOMPILER_VERSION" (λ v. v / 10000 % 100);
      patch = dec_of m "__ARMCOMPILER_VERSION" (λ v. v % 10000);
    };
    internal = dec_whole m "__ARMCOMPILER_VERSION";
  };
}

abbrev pub clang : Branch
clang = record {
  compiler_id = "Clang";
  holds = λ m. has m "__clang__";
  facts = λ m. record no_facts {
    version = record no_version {
      major = dec_whole m "__clang_major__";
      minor = dec_whole m "__clang_minor__";
      patch = dec_whole m "__clang_patchlevel__";
    };
    simulate_id = simulate_msvc m;
    simulate = simulate_msvc_version m;
  };
}
