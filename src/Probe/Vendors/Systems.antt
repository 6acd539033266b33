-- ===== src/Probe/Vendors/Systems.antt =====
-- CMakeCXXCompilerId.cpp: compilers for certain machines, from NVHPC to ARMCC.
use scalable_key_value_store.Prelude.{◌/◌, ◌%◌, not, ◌&&◌, leb, if◌then◌else◌}
use scalable_key_value_store.Probe.Macros.{
  Macros, has, has_literal, number, absent, paste, Version, no_version, no_facts, Branch,
}
use scalable_key_value_store.Probe.Digits.{dec_of, dec_whole, dec_if}

abbrev pub nvhpc : Branch
nvhpc = record {
  compiler_id = "NVHPC";
  holds = λ m. has m "__NVCOMPILER";
  facts = λ m. record no_facts {
    version = record no_version {
      major = dec_whole m "__NVCOMPILER_MAJOR__";
      minor = dec_whole m "__NVCOMPILER_MINOR__";
      patch = dec_if m "__NVCOMPILER_PATCHLEVEL__";
    };
  };
}

abbrev pub pgi : Branch
pgi = record {
  compiler_id = "PGI";
  holds = λ m. has m "__PGI";
  facts = λ m. record no_facts {
    version = record no_version {
      major = dec_whole m "__PGIC__";
      minor = dec_whole m "__PGIC_MINOR__";
      patch = dec_if m "__PGIC_PATCHLEVEL__";
    };
  };
}

abbrev pub cray : Branch
cray = record {
  compiler_id = "Cray";
  holds = λ m. has m "_CRAYC";
  facts = λ m. record no_facts {
    version = record no_version {
      major = dec_whole m "_RELEASE_MAJOR";
      minor = dec_whole m "_RELEASE_MINOR";
    };
  };
}

abbrev pub ti : Branch
ti = record {
  compiler_id = "TI";
  holds = λ m. has m "__TI_COMPILER_VERSION__";
  facts = λ m. record no_facts {
    version = record no_version {
      major = dec_of m "__TI_COMPILER_VERSION__" (λ v. v / 1000000);
      minor = dec_of m "__TI_COMPILER_VERSION__" (λ v. v / 1000 % 1000);
      patch = dec_of m "__TI_COMPILER_VERSION__" (λ v. v % 1000);
    };
  };
}

abbrev pub fujitsu_clang : Branch
fujitsu_clang = record {
  compiler_id = "FujitsuClang";
  holds = λ m. has m "__CLANG_FUJITSU";
  facts = λ m. record no_facts {
    version = record no_version {
      major = dec_whole m "__FCC_major__";
      minor = dec_whole m "__FCC_minor__";
      patch = dec_whole m "__FCC_patchlevel__";
    };
    internal_text = paste (m.literal_of "__clang_version__");
  };
}

abbrev pub fujitsu_version : Macros → Version
fujitsu_version m =
    if has_literal m "__FCC_version__"
    then no_version
    else if has m "__FCC_major__"
    then record no_version {
      major = dec_whole m "__FCC_major__";
      minor = dec_whole m "__FCC_minor__";
      patch = dec_whole m "__FCC_patchlevel__";
    }
    else no_version

abbrev pub fujitsu : Branch
fujitsu = record {
  compiler_id = "Fujitsu";
  holds = λ m. has m "__FUJITSU";
  facts = λ m. record no_facts {
    version = fujitsu_version m;
    compiler_version =
        if has_literal m "__FCC_version__" then paste (m.literal_of "__FCC_version__") else absent;
    internal =
        if has m "__fcc_version" then dec_whole m "__fcc_version" else dec_if m "__FCC_VERSION";
  };
}

abbrev pub ghs_version : Macros → Version
ghs_version m =
    if has m "__GHS_VERSION_NUMBER"
    then record no_version {
      major = dec_of m "__GHS_VERSION_NUMBER" (λ v. v / 100);
      minor = dec_of m "__GHS_VERSION_NUMBER" (λ v. v / 10 % 10);
      patch = dec_of m "__GHS_VERSION_NUMBER" (λ v. v % 10);
    }
    else no_version

abbrev pub ghs : Branch
ghs = record {
  compiler_id = "GHS";
  holds = λ m. has m "__ghs__";
  facts = λ m. record no_facts { version = ghs_version m };
}

abbrev pub sco : Branch
sco = record { compiler_id = "SCO"; holds = λ m. has m "__SCO_VERSION__"; facts = λ m. no_facts }

abbrev pub arm_cc_version : Macros → Version
arm_cc_version m =
    if leb 1000000 (number m "__ARMCC_VERSION")
    then record no_version {
      major = dec_of m "__ARMCC_VERSION" (λ v. v / 1000000);
      minor = dec_of m "__ARMCC_VERSION" (λ v. v / 10000 % 100);
      patch = dec_of m "__ARMCC_VERSION" (λ v. v % 10000);
    }
    else record no_version {
      major = dec_of m "__ARMCC_VERSION" (λ v. v / 100000);
      minor = dec_of m "__ARMCC_VERSION" (λ v. v / 10000 % 10);
      patch = dec_of m "__ARMCC_VERSION" (λ v. v % 10000);
    }

abbrev pub arm_cc : Branch
arm_cc = record {
  compiler_id = "ARMCC";
  holds = λ m. has m "__ARMCC_VERSION" && not (has m "__clang__");
  facts = λ m. record no_facts { version = arm_cc_version m };
}
