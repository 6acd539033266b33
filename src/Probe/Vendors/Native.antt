-- ===== src/Probe/Vendors/Native.antt =====
-- CMakeCXXCompilerId.cpp: LCC, GNU and MSVC, and the compilers that come after them.
use scalable_key_value_store.Prelude.{
  ◌-◌, ◌*◌, ◌/◌, ◌%◌, ◌^◌, Bool, ◌&&◌, ◌||◌, none, some, leb, if◌then◌else◌,
}
use scalable_key_value_store.Probe.Macros.{
  codes, Macros, has, number, Part, absent, part, Version, no_version, no_facts, Branch,
}
use scalable_key_value_store.Probe.Digits.{dec, dec_less, dec_of, dec_whole, dec_if}
use scalable_key_value_store.Prelude.{true}
use scalable_key_value_store.Probe.Macros.{convert}

abbrev pub simulate_gnu : Macros → Bool
simulate_gnu m = has m "__GNUC__" && has m "__GNUC_MINOR__"

-- `__LCC__` is defined in this branch, so the test around the minor version holds.
abbrev pub lcc : Branch
lcc = record {
  compiler_id = "LCC";
  holds = λ m. has m "__LCC__" && (has m "__GNUC__" || has m "__GNUG__" || has m "__MCST__");
  facts = λ m. record no_facts {
    version = record no_version {
      major = part (dec 1);
      minor = convert (dec_less 100) (m.number_of "__LCC__");
      patch = dec_if m "__LCC_MINOR__";
    };
    simulate_id = if simulate_gnu m then some (codes "GNU") else none;
    simulate =
        if simulate_gnu m
        then record no_version {
          major = dec_whole m "__GNUC__";
          minor = dec_whole m "__GNUC_MINOR__";
          patch = dec_if m "__GNUC_PATCHLEVEL__";
        }
        else no_version;
  };
}

abbrev pub gnu : Branch
gnu = record {
  compiler_id = "GNU";
  holds = λ m. has m "__GNUC__" || has m "__GNUG__";
  facts = λ m. record no_facts {
    version = record no_version {
      major = if has m "__GNUC__" then dec_whole m "__GNUC__" else dec_whole m "__GNUG__";
      minor = dec_if m "__GNUC_MINOR__";
      patch = dec_if m "__GNUC_PATCHLEVEL__";
    };
  };
}

abbrev pub msvc_patch : Macros → Part
msvc_patch m =
    if has m "_MSC_FULL_VER"
    then (if leb 1400 (number m "_MSC_VER")
        then dec_of m "_MSC_FULL_VER" (λ v. v % 100000)
        else dec_of m "_MSC_FULL_VER" (λ v. v % 10000))
    else absent

abbrev pub msvc : Branch
msvc = record {
  compiler_id = "MSVC";
  holds = λ m. has m "_MSC_VER";
  facts = λ m. record no_facts {
    version = record no_version {
      major = dec_of m "_MSC_VER" (λ v. v / 100);
      minor = dec_of m "_MSC_VER" (λ v. v % 100);
      patch = msvc_patch m;
      tweak = dec_if m "_MSC_BUILD";
    };
  };
}

abbrev pub adsp_version : Macros → Version
adsp_version m =
    if has m "__VERSIONNUM__"
    then record {
      major = dec_of m "__VERSIONNUM__" (λ v. v / 2 ^ 24 % 2 ^ 8);
      minor = dec_of m "__VERSIONNUM__" (λ v. v / 2 ^ 16 % 2 ^ 8);
      patch = dec_of m "__VERSIONNUM__" (λ v. v / 2 ^ 8 % 2 ^ 8);
      tweak = dec_of m "__VERSIONNUM__" (λ v. v % 2 ^ 8);
    }
    else no_version

abbrev pub adsp : Branch
adsp = record {
  compiler_id = "ADSP";
  holds = λ m. has m "_ADI_COMPILER";
  facts = λ m. record no_facts { version = adsp_version m };
}

abbrev pub iar_arm : Macros → Bool
iar_arm m = has m "__VER__" && has m "__ICCARM__"

abbrev pub iar_other : Macros → Bool
iar_other m =
    has m "__VER__"
    && (has m "__ICCAVR__"
        || has m "__ICCRX__"
        || has m "__ICCRH850__"
        || has m "__ICCRL78__"
        || has m "__ICC430__"
        || has m "__ICCRISCV__"
        || has m "__ICCV850__"
        || has m "__ICC8051__"
        || has m "__ICCSTM8__")

abbrev pub iar_version : Macros → Version
iar_version m =
    if iar_arm m
    then record no_version {
      major = dec_of m "__VER__" (λ v. v / 1000000);
      minor = dec_of m "__VER__" (λ v. v / 1000 % 1000);
      patch = dec_of m "__VER__" (λ v. v % 1000);
    }
    else if iar_other m
    then record no_version {
      major = dec_of m "__VER__" (λ v. v / 100);
      minor = dec_of m "__VER__" (λ v. v - v / 100 * 100);
      patch = dec_whole m "__SUBVERSION__";
    }
    else no_version

abbrev pub iar : Branch
iar = record {
  compiler_id = "IAR";
  holds = λ m. has m "__IAR_SYSTEMS_ICC__" || has m "__IAR_SYSTEMS_ICC";
  facts = λ m. record no_facts {
    version = iar_version m;
    internal = if iar_arm m || iar_other m then dec_whole m "__IAR_SYSTEMS_ICC__" else absent;
  };
}

abbrev pub hp_native : Branch
hp_native = record {
  compiler_id = "HP";
  holds = λ m. has m "__hpux" || has m "__hpua";
  facts = λ m. no_facts;
}

-- the last `#else`
abbrev pub unknown : Branch
unknown = record { compiler_id = ""; holds = λ m. true; facts = λ m. no_facts }
