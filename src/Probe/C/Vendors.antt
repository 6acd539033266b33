-- ===== src/Probe/C/Vendors.antt =====
-- CMakeCCompilerId.c: the branches that CMakeCXXCompilerId.cpp does not have, or asks in other words.
use scalable_key_value_store.Prelude.{
  ◌/◌, ◌%◌, ◌^◌, not, ◌&&◌, ◌||◌, List, [], ◌∷◌, ltb, leb, if◌then◌else◌,
}
use scalable_key_value_store.Probe.Macros.{
  Macros, has, number, Version, no_version, no_facts, Branch,
}
use scalable_key_value_store.Probe.Digits.{dec_of, dec_whole, dec_if, hex_of}
use scalable_key_value_store.Probe.Compiler.{first}
use scalable_key_value_store.Probe.Vendors.Intel.{intel, intel_llvm}
use scalable_key_value_store.Probe.Vendors.Classic.{
  path_scale, embarcadero, borland, watcom, open_watcom,
}
use scalable_key_value_store.Probe.Vendors.Ibm.{ibm_clang, xl_clang}
use scalable_key_value_store.Probe.Vendors.Systems.{
  nvhpc, pgi, cray, ti, fujitsu_clang, fujitsu, ghs, sco, arm_cc,
}
use scalable_key_value_store.Probe.Vendors.Clang.{apple_clang, arm_clang, clang}
use scalable_key_value_store.Probe.Vendors.Native.{lcc, msvc, adsp, iar, hp_native}

abbrev pub sun_pro_c_version : Macros → Version
sun_pro_c_version m =
    if leb 0x5100 (number m "__SUNPRO_C")
    then record no_version {
      major = hex_of m "__SUNPRO_C" (λ v. v / 2 ^ 12);
      minor = hex_of m "__SUNPRO_C" (λ v. v / 2 ^ 4 % 2 ^ 8);
      patch = hex_of m "__SUNPRO_C" (λ v. v % 2 ^ 4);
    }
    else record no_version {
      major = hex_of m "__SUNPRO_C" (λ v. v / 2 ^ 8);
      minor = hex_of m "__SUNPRO_C" (λ v. v / 2 ^ 4 % 2 ^ 4);
      patch = hex_of m "__SUNPRO_C" (λ v. v % 2 ^ 4);
    }

abbrev pub sun_pro_c : Branch
sun_pro_c = record {
  compiler_id = "SunPro";
  holds = λ m. has m "__SUNPRO_C";
  facts = λ m. record no_facts { version = sun_pro_c_version m };
}

abbrev pub hp_c : Branch
hp_c = record {
  compiler_id = "HP";
  holds = λ m. has m "__HP_cc";
  facts = λ m. record no_facts {
    version = record no_version {
      major = dec_of m "__HP_cc" (λ v. v / 10000);
      minor = dec_of m "__HP_cc" (λ v. v / 100 % 100);
      patch = dec_of m "__HP_cc" (λ v. v % 100);
    };
  };
}

abbrev pub compaq_c : Branch
compaq_c = record {
  compiler_id = "Compaq";
  holds = λ m. has m "__DECC";
  facts = λ m. record no_facts {
    version = record no_version {
      major = dec_of m "__DECC_VER" (λ v. v / 10000000);
      minor = dec_of m "__DECC_VER" (λ v. v / 100000 % 100);
      patch = dec_of m "__DECC_VER" (λ v. v % 10000);
    };
  };
}

-- what zOS, XL and VisualAge make of `__IBMC__`
abbrev pub ibm_c_version : Macros → Version
ibm_c_version m = record no_version {
  major = dec_of m "__IBMC__" (λ v. v / 100);
  minor = dec_of m "__IBMC__" (λ v. v / 10 % 10);
  patch = dec_of m "__IBMC__" (λ v. v % 10);
}

abbrev pub z_os_c : Branch
z_os_c = record {
  compiler_id = "zOS";
  holds = λ m. has m "__IBMC__" && has m "__COMPILER_VER__";
  facts = λ m. record no_facts { version = ibm_c_version m };
}

abbrev pub xl_c : Branch
xl_c = record {
  compiler_id = "XL";
  holds = λ m. has m "__IBMC__" && not (has m "__COMPILER_VER__") && leb 800 (number m "__IBMC__");
  facts = λ m. record no_facts { version = ibm_c_version m };
}

abbrev pub visual_age_c : Branch
visual_age_c = record {
  compiler_id = "VisualAge";
  holds = λ m. has m "__IBMC__" && not (has m "__COMPILER_VER__") && ltb (number m "__IBMC__") 800;
  facts = λ m. record no_facts { version = ibm_c_version m };
}

abbrev pub tiny_cc : Branch
tiny_cc = record { compiler_id = "TinyCC"; holds = λ m. has m "__TINYC__"; facts = λ m. no_facts }

abbrev pub bruce : Branch
bruce = record { compiler_id = "Bruce"; holds = λ m. has m "__BCC__"; facts = λ m. no_facts }

abbrev pub gnu_c : Branch
gnu_c = record {
  compiler_id = "GNU";
  holds = λ m. has m "__GNUC__";
  facts = λ m. record no_facts {
    version = record no_version {
      major = dec_whole m "__GNUC__";
      minor = dec_if m "__GNUC_MINOR__";
      patch = dec_if m "__GNUC_PATCHLEVEL__";
    };
  };
}

abbrev pub sdcc_version : Macros → Version
sdcc_version m =
    if has m "__SDCC_VERSION_MAJOR"
    then record no_version {
      major = dec_whole m "__SDCC_VERSION_MAJOR";
      minor = dec_whole m "__SDCC_VERSION_MINOR";
      patch = dec_whole m "__SDCC_VERSION_PATCH";
    }
    else record no_version {
      major = dec_of m "SDCC" (λ v. v / 100);
      minor = dec_of m "SDCC" (λ v. v / 10 % 10);
      patch = dec_of m "SDCC" (λ v. v % 10);
    }

abbrev pub sdcc : Branch
sdcc = record {
  compiler_id = "SDCC";
  holds = λ m. has m "__SDCC_VERSION_MAJOR" || has m "SDCC";
  facts = λ m. record no_facts { version = sdcc_version m };
}

-- The branches in their order, but for the last `#else`.
abbrev pub c_branches : List Branch
c_branches =
    intel ∷ intel_llvm ∷ path_scale ∷ embarcadero ∷ borland ∷ watcom ∷ open_watcom ∷ sun_pro_c
    ∷ hp_c ∷ compaq_c ∷ z_os_c ∷ ibm_clang ∷ xl_clang ∷ xl_c ∷ visual_age_c ∷ nvhpc ∷ pgi ∷ cray
    ∷ ti ∷ fujitsu_clang ∷ fujitsu ∷ ghs ∷ tiny_cc ∷ bruce ∷ sco ∷ arm_cc ∷ apple_clang ∷ arm_clang
    ∷ clang ∷ lcc ∷ gnu_c ∷ msvc ∷ adsp ∷ iar ∷ sdcc ∷ hp_native ∷ []

unfoldable pub c_identify : Macros → Branch
c_identify m = first m c_branches
