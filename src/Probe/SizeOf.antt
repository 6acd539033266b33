-- ===== src/Probe/SizeOf.antt =====
-- client/build/CMakeFiles/CheckTypeSize/OFF64_T.c: the size of a type, as a text in the program.
pub mod RoundTrip
use Prim.Native.String.{String}
use scalable_key_value_store.Prelude.{
  ℕ, ◌+◌, ◌/◌, ◌%◌, Option, none, some, List, [], ◌∷◌, ◌++◌, get_elem?,
}
use scalable_key_value_store.Probe.Macros.{Text, codes, Macros, choose}
use scalable_key_value_store.Probe.Main.{Run, refused, run_of}

-- KEY, empty if no branch defines it
unfoldable pub key : Macros → Text
key m = choose m (
    ("__i386" ∷ [], λ m. codes "__i386")
    ∷ ("__x86_64" ∷ [], λ m. codes "__x86_64")
    ∷ ("__PPC64__" ∷ [], λ m. codes "__PPC64__")
    ∷ ("__ppc64__" ∷ [], λ m. codes "__ppc64__")
    ∷ ("__PPC__" ∷ [], λ m. codes "__PPC__")
    ∷ ("__ppc__" ∷ [], λ m. codes "__ppc__")
    ∷ ("__aarch64__" ∷ [], λ m. codes "__aarch64__")
    ∷ ("__ARM_ARCH_7A__" ∷ [], λ m. codes "__ARM_ARCH_7A__")
    ∷ ("__ARM_ARCH_7S__" ∷ [], λ m. codes "__ARM_ARCH_7S__")
    ∷ [])

-- five digits
unfoldable pub size_digits : ℕ → Text
size_digits size =
    (b'0' + size / 10000 % 10)
    ∷ (b'0' + size / 1000 % 10)
    ∷ (b'0' + size / 100 % 10)
    ∷ (b'0' + size / 10 % 10)
    ∷ (b'0' + size % 10)
    ∷ []

-- `#ifdef KEY`
abbrev pub key_text : Text → Text
key_text [] = []
key_text (c ∷ name) = codes " key[" ++ (c ∷ name) ++ b']' ∷ []

-- without its zero byte
unfoldable pub info_size : Macros → ℕ → Text
info_size m size = codes "INFO:size[" ++ (size_digits size ++ (b']' ∷ key_text (key m)))

-- `size` is `sizeof(off64_t)`, if there is such a type.
unfoldable pub main : Macros → Option ℕ → ℕ → Run
main m none argc = refused
main m (some size) argc = run_of (get_elem? (info_size m size ++ 0 ∷ []) argc)
