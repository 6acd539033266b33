-- ===== src/Probe/Vendors/Ibm.antt =====
-- CMakeCXXCompilerId.cpp: the compilers of IBM.
use scalable_key_value_store.Prelude.{◌/◌, ◌%◌, not, ◌&&◌, ltb, leb}
use scalable_key_value_store.Probe.Macros.{has, number, no_version, no_facts, Branch}
use scalable_key_value_store.Probe.Digits.{dec_of, dec_whole}

abbrev pub z_os : Branch
z_os = record {
  compiler_id = "zOS";
  holds = λ m. has m "__IBMCPP__" && has m "__COMPILER_VER__";
  facts = λ m. record no_facts {
    version = record no_version {
      major = dec_of m "__IBMCPP__" (λ v. v / 100);
      minor = dec_of m "__IBMCPP__" (λ v. v / 10 % 10);
      patch = dec_of m "__IBMCPP__" (λ v. v % 10);
    };
  };
}

abbrev pub ibm_clang : Branch
ibm_clang = record {
  compiler_id = "IBMClang";
  holds = λ m. has m "__open_xl__" && has m "__clang__";
  facts = λ m. record no_facts {
    version = record no_version {
      major = dec_whole m "__open_xl_version__";
      minor = dec_whole m "__open_xl_release__";
      patch = dec_whole m "__open_xl_modification__";
      tweak = dec_whole m "__open_xl_ptf_fix_level__";
    };
  };
}

abbrev pub xl_clang : Branch
xl_clang = record {
  compiler_id = "XLClang";
  holds = λ m. has m "__ibmxl__" && has m "__clang__";
  facts = λ m. record no_facts {
    version = record no_version {
      major = dec_whole m "__ibmxl_version__";
      minor = dec_whole m "__ibmxl_release__";
      patch = dec_whole m "__ibmxl_modification__";
      tweak = dec_whole m "__ibmxl_ptf_fix_level__";
    };
  };
}

abbrev pub xl : Branch
xl = record {
  compiler_id = "XL";
  holds =
      λ m. has m "__IBMCPP__" && not (has m "__COMPILER_VER__") && leb 800 (number m "__IBMCPP__");
  facts = λ m. record no_facts {
    version = record no_version {
      major = dec_of m "__IBMCPP__" (λ v. v / 100);
      minor = dec_of m "__IBMCPP__" (λ v. v / 10 % 10);
      patch = dec_of m "__IBMCPP__" (λ v. v % 10);
    };
  };
}

abbrev pub visual_age : Branch
visual_age = record {
  compiler_id = "VisualAge";
  holds =
      λ m. has m "__IBMCPP__" && not (has m "__COMPILER_VER__") && ltb (number m "__IBMCPP__") 800;
  facts = λ m. record no_facts {
    version = record no_version {
      major = dec_of m "__IBMCPP__" (λ v. v / 100);
      minor = dec_of m "__IBMCPP__" (λ v. v / 10 % 10);
      patch = dec_of m "__IBMCPP__" (λ v. v % 10);
    };
  };
}
