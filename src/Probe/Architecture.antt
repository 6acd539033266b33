-- ===== src/Probe/Architecture.antt =====
-- CMakeCXXCompilerId.cpp: ARCHITECTURE_ID.

use scalable_key_value_store.Prelude.{[], ◌∷◌, ◌++◌, ◌&&◌, ◌==◌, if◌then◌else◌}
use scalable_key_value_store.Probe.Macros.{Text, codes, Macros, has, number, choose}

-- `_M_ARM`: 4, 5, or what the macro stands for
abbrev pub arm_architecture : Macros → Text
arm_architecture m =
    if number m "_M_ARM" == 4
    then codes "ARMV4I"
    else if number m "_M_ARM" == 5
    then codes "ARMV5I"
    else codes "ARMV" ++ m.spelling_of "_M_ARM"

abbrev pub windows_architecture : Macros → Text
windows_architecture m = choose m (
    ("_M_IA64" ∷ [], λ m. codes "IA64")
    ∷ ("_M_ARM64EC" ∷ [], λ m. codes "ARM64EC")
    ∷ ("_M_X64" ∷ "_M_AMD64" ∷ [], λ m. codes "x64")
    ∷ ("_M_IX86" ∷ [], λ m. codes "X86")
    ∷ ("_M_ARM64" ∷ [], λ m. codes "ARM64")
    ∷ ("_M_ARM" ∷ [], arm_architecture)
    ∷ ("_M_MIPS" ∷ [], λ m. codes "MIPS")
    ∷ ("_M_SH" ∷ [], λ m. codes "SHx")
    ∷ [])

abbrev pub watcom_architecture : Macros → Text
watcom_architecture m =
    choose m (("_M_I86" ∷ [], λ m. codes "I86") ∷ ("_M_IX86" ∷ [], λ m. codes "X86") ∷ [])

abbrev pub iar_architecture : Macros → Text
iar_architecture m = choose m (
    ("__ICCARM__" ∷ [], λ m. codes "ARM")
    ∷ ("__ICCRX__" ∷ [], λ m. codes "RX")
    ∷ ("__ICCRH850__" ∷ [], λ m. codes "RH850")
    ∷ ("__ICCRL78__" ∷ [], λ m. codes "RL78")
    ∷ ("__ICCRISCV__" ∷ [], λ m. codes "RISCV")
    ∷ ("__ICCAVR__" ∷ [], λ m. codes "AVR")
    ∷ ("__ICC430__" ∷ [], λ m. codes "MSP430")
    ∷ ("__ICCV850__" ∷ [], λ m. codes "V850")
    ∷ ("__ICC8051__" ∷ [], λ m. codes "8051")
    ∷ ("__ICCSTM8__" ∷ [], λ m. codes "STM8")
    ∷ [])

abbrev pub ghs_architecture : Macros → Text
ghs_architecture m = choose m (
    ("__PPC64__" ∷ [], λ m. codes "PPC64")
    ∷ ("__ppc__" ∷ [], λ m. codes "PPC")
    ∷ ("__ARM__" ∷ [], λ m. codes "ARM")
    ∷ ("__x86_64__" ∷ [], λ m. codes "x64")
    ∷ ("__i386__" ∷ [], λ m. codes "X86")
    ∷ [])

abbrev pub ti_architecture : Macros → Text
ti_architecture m = choose m (
    ("__TI_ARM__" ∷ [], λ m. codes "ARM")
    ∷ ("__MSP430__" ∷ [], λ m. codes "MSP430")
    ∷ ("__TMS320C28XX__" ∷ [], λ m. codes "TMS320C28x")
    ∷ ("__TMS320C6X__" ∷ "_TMS320C6X" ∷ [], λ m. codes "TMS320C6x")
    ∷ [])

-- An architecture that is not known has no identifier.
unfoldable pub architecture_id : Macros → Text
architecture_id m =
    if has m "_WIN32" && has m "_MSC_VER"
    then windows_architecture m
    else choose m (
        ("__WATCOMC__" ∷ [], watcom_architecture)
        ∷ ("__IAR_SYSTEMS_ICC__" ∷ "__IAR_SYSTEMS_ICC" ∷ [], iar_architecture)
        ∷ ("__ghs__" ∷ [], ghs_architecture)
        ∷ ("__TI_COMPILER_VERSION__" ∷ [], ti_architecture)
        ∷ ("__ADSPSHARC__" ∷ [], λ m. codes "SHARC")
        ∷ ("__ADSPBLACKFIN__" ∷ [], λ m. codes "Blackfin")
        ∷ [])
