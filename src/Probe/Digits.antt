-- ===== src/Probe/Digits.antt =====
-- The macros DEC and HEX of CMakeCXXCompilerId.cpp: a number as eight characters.
pub mod RoundTrip
use scalable_key_value_store.Prelude.{
  ℕ, ◌+◌, ◌-◌, ◌*◌, ◌/◌, ◌%◌, ◌^◌, List, [], ◌∷◌, Bool, leb, if◌then◌else◌,
}
use Prim.Native.String.{String}
use scalable_key_value_store.Probe.Macros.{Text, Macros, Part, absent, convert, has}

-- DEC(n), for a number that is not negative
unfoldable pub dec : ℕ → Text
dec n =
    (b'0' + n / 10000000 % 10)
    ∷ (b'0' + n / 1000000 % 10)
    ∷ (b'0' + n / 100000 % 10)
    ∷ (b'0' + n / 10000 % 10)
    ∷ (b'0' + n / 1000 % 10)
    ∷ (b'0' + n / 100 % 10)
    ∷ (b'0' + n / 10 % 10)
    ∷ (b'0' + n % 10)
    ∷ []

-- DEC(-n): division and remainder round to zero, so each digit goes below '0'
unfoldable pub dec_negative : ℕ → Text
dec_negative n =
    (b'0' - n / 10000000 % 10)
    ∷ (b'0' - n / 1000000 % 10)
    ∷ (b'0' - n / 100000 % 10)
    ∷ (b'0' - n / 10000 % 10)
    ∷ (b'0' - n / 1000 % 10)
    ∷ (b'0' - n / 100 % 10)
    ∷ (b'0' - n / 10 % 10)
    ∷ (b'0' - n % 10)
    ∷ []

-- DEC(n - k)
unfoldable pub dec_less : ℕ → ℕ → Text
dec_less k n = if leb k n then dec (n - k) else dec_negative (k - n)

-- HEX(n): a digit above 9 is the character that many places behind '0'
unfoldable pub hex : ℕ → Text
hex n =
    (b'0' + n / 2 ^ 28 % 16)
    ∷ (b'0' + n / 2 ^ 24 % 16)
    ∷ (b'0' + n / 2 ^ 20 % 16)
    ∷ (b'0' + n / 2 ^ 16 % 16)
    ∷ (b'0' + n / 2 ^ 12 % 16)
    ∷ (b'0' + n / 2 ^ 8 % 16)
    ∷ (b'0' + n / 2 ^ 4 % 16)
    ∷ (b'0' + n % 16)
    ∷ []

-- DEC(X) and DEC(X / 100 % 10) and the like, as the function of X
abbrev pub dec_of : Macros → String → (ℕ → ℕ) → Part
dec_of m name f = convert (λ n. dec (f n)) (m.number_of name)

abbrev pub dec_whole : Macros → String → Part
dec_whole m name = convert dec (m.number_of name)

abbrev pub hex_of : Macros → String → (ℕ → ℕ) → Part
hex_of m name f = convert (λ n. hex (f n)) (m.number_of name)

-- `# if defined(X)` around a `# define` of DEC(X)
abbrev pub dec_if : Macros → String → Part
dec_if m name = if has m name then dec_whole m name else absent
