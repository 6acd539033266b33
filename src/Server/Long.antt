-- ===== src/Server/Long.antt =====
-- `long` values that the server compares and counts up: 64-bit words in two's complement.
use scalable_key_value_store.Prelude.{ℕ, ◌+◌, ◌%◌, ◌^◌, Bool, ltb}

abbrev pub word_mod : ℕ
word_mod = 2 ^ 64

abbrev pub sign_bit : ℕ
sign_bit = 2 ^ 63

-- `a < b` for words read as signed numbers
unfoldable pub signed_lt : ℕ → ℕ → Bool
signed_lt a b = ltb ((a + sign_bit) % word_mod) ((b + sign_bit) % word_mod)

-- `a++`
unfoldable pub increment : ℕ → ℕ
increment a = (a + 1) % word_mod
