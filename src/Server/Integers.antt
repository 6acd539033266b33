-- ===== src/Server/Integers.antt =====
-- `Integer.parseInt`, as server/KVStoreServer.java uses it, and the digits that it reads.
pub mod Places
use scalable_key_value_store.Prelude.{
  ℕ, suc, zero, ◌+◌, ◌-◌, ◌*◌, ◌^◌, ℤ, Option, none, some, [], ◌∷◌, ◌==◌, leb, if◌then◌else◌,
}
use scalable_key_value_store.Server.Java.{Outcome, returns, throws, number_format_exception}
use scalable_key_value_store.Server.Sql.{Text}

-- `other` is `Character.digit` on characters outside ASCII, which have digits of other scripts.
module _ (other : ℕ → Option ℕ) where
  unfoldable pub digit : ℕ → Option ℕ
  digit c =
      if leb 128 c
      then other c
      else if leb b'0' c
      then (if leb c b'9' then some (c - b'0') else none)
      else none

  -- The digits behind those that give `n`.
  unfoldable pub digits_from : ℕ → Text → Option ℕ
  digits_from n [] = some n
  digits_from n (c ∷ s) = elim (digit c) [ none ↦ none | some d ↦ digits_from (n * 10 + d) s ]

  -- A sign alone is no number.
  unfoldable pub magnitude : Text → Option ℕ
  magnitude [] = none
  magnitude (c ∷ s) = digits_from 0 (c ∷ s)

  unfoldable pub positive : Option ℕ → Outcome ℤ
  positive none = throws number_format_exception
  positive (some n) =
      if leb n (2 ^ 31 - 1) then returns (ℤ.pos n) else throws number_format_exception

  abbrev negate : ℕ → ℤ
  negate zero = ℤ.pos 0
  negate (suc n) = ℤ.negsuc n

  unfoldable pub negative : Option ℕ → Outcome ℤ
  negative none = throws number_format_exception
  negative (some n) = if leb n (2 ^ 31) then returns (negate n) else throws number_format_exception

  unfoldable pub parse_int : Text → Outcome ℤ
  parse_int [] = throws number_format_exception
  parse_int (c ∷ s) =
      if c == b'-'
      then negative (magnitude s)
      else if c == b'+'
      then positive (magnitude s)
      else positive (magnitude (c ∷ s))
