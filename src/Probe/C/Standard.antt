-- ===== src/Probe/C/Standard.antt =====
-- CMakeCCompilerId.c: C_VERSION.
use scalable_key_value_store.Prelude.{not, ◌&&◌, ◌||◌, ltb, leb, if◌then◌else◌}
use scalable_key_value_store.Probe.Macros.{Text, codes, Macros, has, number}

-- the standard of a compiler that does not claim one
abbrev pub older_version : Macros → Text
older_version m =
    if has m "_MSC_VER" || has m "__ibmxl__" || has m "__IBMC__" then codes "90" else codes ""

unfoldable pub c_version : Macros → Text
c_version m =
    if not (has m "__STDC__") && not (has m "__clang__")
    then older_version m
    else if ltb 201710 (number m "__STDC_VERSION__")
    then codes "23"
    else if leb 201710 (number m "__STDC_VERSION__")
    then codes "17"
    else if leb 201000 (number m "__STDC_VERSION__")
    then codes "11"
    else if leb 199901 (number m "__STDC_VERSION__")
    then codes "99"
    else codes "90"
