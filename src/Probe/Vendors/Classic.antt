-- ===== src/Probe/Vendors/Classic.antt =====
-- CMakeCXXCompilerId.cpp: compilers of the years before 2000, by the order of the file.
use scalable_key_value_store.Prelude.{◌-◌, ◌/◌, ◌%◌, ◌^◌, ◌&&◌, ltb, leb, if◌then◌else◌}
use scalable_key_value_store.Probe.Macros.{
  Macros, has, number, Part, absent, Version, no_version, no_facts, Branch,
}
use scalable_key_value_store.Probe.Digits.{dec_of, dec_whole, dec_if, hex_of}

abbrev pub comeau : Branch
comeau = record {
  compiler_id = "Comeau";
  holds = λ m. has m "__COMO__";
  facts = λ m. record no_facts {
    version = record no_version {
      major = dec_of m "__COMO_VERSION__" (λ v. v / 100);
      minor = dec_of m "__COMO_VERSION__" (λ v. v % 100);
    };
  };
}

abbrev pub path_scale : Branch
path_scale = record {
  compiler_id = "PathScale";
  holds = λ m. has m "__PATHCC__";
  facts = λ m. record no_facts {
    version = record no_version {
      major = dec_whole m "__PATHCC__";
      minor = dec_whole m "__PATHCC_MINOR__";
      patch = dec_if m "__PATHCC_PATCHLEVEL__";
    };
  };
}

abbrev pub embarcadero : Branch
embarcadero = record {
  compiler_id = "Embarcadero";
  holds = λ m. has m "__BORLANDC__" && has m "__CODEGEARC_VERSION__";
  facts = λ m. record no_facts {
    version = record no_version {
      major = hex_of m "__CODEGEARC_VERSION__" (λ v. v / 2 ^ 24 % 2 ^ 8);
      minor = hex_of m "__CODEGEARC_VERSION__" (λ v. v / 2 ^ 16 % 2 ^ 8);
      patch = dec_of m "__CODEGEARC_VERSION__" (λ v. v % 2 ^ 16);
    };
  };
}

abbrev pub borland : Branch
borland = record {
  compiler_id = "Borland";
  holds = λ m. has m "__BORLANDC__";
  facts = λ m. record no_facts {
    version = record no_version {
      major = hex_of m "__BORLANDC__" (λ v. v / 2 ^ 8);
      minor = hex_of m "__BORLANDC__" (λ v. v % 2 ^ 8);
    };
  };
}

abbrev pub watcom_patch : Macros → Part
watcom_patch m =
    if ltb 0 (number m "__WATCOMC__" % 10) then dec_of m "__WATCOMC__" (λ v. v % 10) else absent

abbrev pub watcom : Branch
watcom = record {
  compiler_id = "Watcom";
  holds = λ m. has m "__WATCOMC__" && ltb (number m "__WATCOMC__") 1200;
  facts = λ m. record no_facts {
    version = record no_version {
      major = dec_of m "__WATCOMC__" (λ v. v / 100);
      minor = dec_of m "__WATCOMC__" (λ v. v / 10 % 10);
      patch = watcom_patch m;
    };
  };
}

-- The number is at least 1200 here, so the difference is not negative.
abbrev pub open_watcom : Branch
open_watcom = record {
  compiler_id = "OpenWatcom";
  holds = λ m. has m "__WATCOMC__";
  facts = λ m. record no_facts {
    version = record no_version {
      major = dec_of m "__WATCOMC__" (λ v. (v - 1100) / 100);
      minor = dec_of m "__WATCOMC__" (λ v. v / 10 % 10);
      patch = watcom_patch m;
    };
  };
}

abbrev pub sun_pro_version : Macros → Version
sun_pro_version m =
    if leb 0x5100 (number m "__SUNPRO_CC")
    then record no_version {
      major = hex_of m "__SUNPRO_CC" (λ v. v / 2 ^ 12);
      minor = hex_of m "__SUNPRO_CC" (λ v. v / 2 ^ 4 % 2 ^ 8);
      patch = hex_of m "__SUNPRO_CC" (λ v. v % 2 ^ 4);
    }
    else record no_version {
      major = hex_of m "__SUNPRO_CC" (λ v. v / 2 ^ 8);
      minor = hex_of m "__SUNPRO_CC" (λ v. v / 2 ^ 4 % 2 ^ 4);
      patch = hex_of m "__SUNPRO_CC" (λ v. v % 2 ^ 4);
    }

abbrev pub sun_pro : Branch
sun_pro = record {
  compiler_id = "SunPro";
  holds = λ m. has m "__SUNPRO_CC";
  facts = λ m. record no_facts { version = sun_pro_version m };
}

abbrev pub hp : Branch
hp = record {
  compiler_id = "HP";
  holds = λ m. has m "__HP_aCC";
  facts = λ m. record no_facts {
    version = record no_version {
      major = dec_of m "__HP_aCC" (λ v. v / 10000);
      minor = dec_of m "__HP_aCC" (λ v. v / 100 % 100);
      patch = dec_of m "__HP_aCC" (λ v. v % 100);
    };
  };
}

abbrev pub compaq : Branch
compaq = record {
  compiler_id = "Compaq";
  holds = λ m. has m "__DECCXX";
  facts = λ m. record no_facts {
    version = record no_version {
      major = dec_of m "__DECCXX_VER" (λ v. v / 10000000);
      minor = dec_of m "__DECCXX_VER" (λ v. v / 100000 % 100);
      patch = dec_of m "__DECCXX_VER" (λ v. v % 10000);
    };
  };
}
