-- ===== src/Probe/Digits/RoundTrip.antt =====
-- What a reader of the digits gets back.
use scalable_key_value_store.Prelude.{ℕ, ◌+◌, ◌-◌, ◌*◌, ◌%◌, ◌^◌, ◌≤◌, ◌≡◌, [], ◌∷◌, All, arith}
use scalable_key_value_store.Probe.Macros.{Text}
use scalable_key_value_store.Probe.Digits.{dec, hex}

-- digits of a number to a base, the first being the highest
unfoldable pub read_from : ℕ → ℕ → Text → ℕ
read_from base n [] = n
read_from base n (c ∷ s) = read_from base (n * base + (c - b'0')) s

abbrev pub read : ℕ → Text → ℕ
read base s = read_from base 0 s

pub shift_back : (x : ℕ) → b'0' + x - b'0' ≡ x
shift_back x = omega arith

-- DEC keeps the last eight decimal digits of a number.
pub read-dec : (n : ℕ) → read 10 (dec n) ≡ n % 10 ^ 8
unfolding read_from dec
read-dec n = simp shift_back (omega arith)

-- HEX keeps the last 32 bits of a number.
read-hex : (n : ℕ) → read 16 (hex n) ≡ n % 2 ^ 32
unfolding read_from hex
read-hex n = simp shift_back (omega arith)

abbrev pub IsDigit : ℕ → Type 0
IsDigit c = (b'0' ≤ c) × (c ≤ b'9')

pub dec-IsDigit : (n : ℕ) → All IsDigit (dec n)
unfolding dec
dec-IsDigit n = ground arith
