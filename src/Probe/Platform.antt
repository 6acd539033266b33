-- ===== src/Probe/Platform.antt =====
-- CMakeCXXCompilerId.cpp: PLATFORM_ID.

use scalable_key_value_store.Prelude.{[], ◌∷◌, if◌then◌else◌}
use scalable_key_value_store.Probe.Macros.{Text, codes, Macros, has, choose}

abbrev pub watcom_platform : Macros → Text
watcom_platform m = choose m (
    ("__LINUX__" ∷ [], λ m. codes "Linux")
    ∷ ("__DOS__" ∷ [], λ m. codes "DOS")
    ∷ ("__OS2__" ∷ [], λ m. codes "OS2")
    ∷ ("__WINDOWS__" ∷ [], λ m. codes "Windows3x")
    ∷ ("__VXWORKS__" ∷ [], λ m. codes "VxWorks")
    ∷ [])

abbrev pub integrity_platform : Macros → Text
integrity_platform m = if has m "INT_178B" then codes "Integrity178" else codes "Integrity"

-- A platform that is not known has no identifier.
unfoldable pub platform_id : Macros → Text
platform_id m = choose m (
    ("__linux" ∷ "__linux__" ∷ "linux" ∷ [], λ m. codes "Linux")
    ∷ ("__MSYS__" ∷ [], λ m. codes "MSYS")
    ∷ ("__CYGWIN__" ∷ [], λ m. codes "Cygwin")
    ∷ ("__MINGW32__" ∷ [], λ m. codes "MinGW")
    ∷ ("__APPLE__" ∷ [], λ m. codes "Darwin")
    ∷ ("_WIN32" ∷ "__WIN32__" ∷ "WIN32" ∷ [], λ m. codes "Windows")
    ∷ ("__FreeBSD__" ∷ "__FreeBSD" ∷ [], λ m. codes "FreeBSD")
    ∷ ("__NetBSD__" ∷ "__NetBSD" ∷ [], λ m. codes "NetBSD")
    ∷ ("__OpenBSD__" ∷ "__OPENBSD" ∷ [], λ m. codes "OpenBSD")
    ∷ ("__sun" ∷ "sun" ∷ [], λ m. codes "SunOS")
    ∷ ("_AIX" ∷ "__AIX" ∷ "__AIX__" ∷ "__aix" ∷ "__aix__" ∷ [], λ m. codes "AIX")
    ∷ ("__hpux" ∷ "__hpux__" ∷ [], λ m. codes "HP-UX")
    ∷ ("__HAIKU__" ∷ [], λ m. codes "Haiku")
    ∷ ("__BeOS" ∷ "__BEOS__" ∷ "_BEOS" ∷ [], λ m. codes "BeOS")
    ∷ ("__QNX__" ∷ "__QNXNTO__" ∷ [], λ m. codes "QNX")
    ∷ ("__tru64" ∷ "_tru64" ∷ "__TRU64__" ∷ [], λ m. codes "Tru64")
    ∷ ("__riscos" ∷ "__riscos__" ∷ [], λ m. codes "RISCos")
    ∷ ("__sinix" ∷ "__sinix__" ∷ "__SINIX__" ∷ [], λ m. codes "SINIX")
    ∷ ("__UNIX_SV__" ∷ [], λ m. codes "UNIX_SV")
    ∷ ("__bsdos__" ∷ [], λ m. codes "BSDOS")
    ∷ ("_MPRAS" ∷ "MPRAS" ∷ [], λ m. codes "MP-RAS")
    ∷ ("__osf" ∷ "__osf__" ∷ [], λ m. codes "OSF1")
    ∷ ("_SCO_SV" ∷ "SCO_SV" ∷ "sco_sv" ∷ [], λ m. codes "SCO_SV")
    ∷ ("__ultrix" ∷ "__ultrix__" ∷ "_ULTRIX" ∷ [], λ m. codes "ULTRIX")
    ∷ ("__XENIX__" ∷ "_XENIX" ∷ "XENIX" ∷ [], λ m. codes "Xenix")
    ∷ ("__WATCOMC__" ∷ [], watcom_platform)
    ∷ ("__INTEGRITY" ∷ [], integrity_platform)
    ∷ ("_ADI_COMPILER" ∷ [], λ m. codes "ADSP")
    ∷ [])
