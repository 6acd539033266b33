-- ===== src/Server/Integers/Places.antt =====
-- Digits as a sum of powers of ten.
use scalable_key_value_store.Prelude.{
  ℕ, ◌+◌, ◌*◌, ◌^◌, ◌<◌, ◌≡◌, ap, sym, ◌∙◌, Option, some, List, [], ◌∷◌, ◌==◌, arith, length, map,
  All, false,
}
use native.Mathlib.Nat.{pow-succ'}
use scalable_key_value_store.Prelude.{ℤ}
use scalable_key_value_store.Server.Java.{returns}
use scalable_key_value_store.Server.Integers.{digit, digits_from, magnitude, positive, parse_int}

-- A digit counts ten to the number of those that follow.
unfoldable pub place_value : List ℕ → ℕ
place_value [] = 0
place_value (d ∷ ds) = d * 10 ^ length ds + place_value ds

abbrev pub character : ℕ → ℕ
character d = b'0' + d

abbrev pub IsDigits : List ℕ → Type 0
IsDigits = All (λ d. d < 10)

module _ (other : ℕ → Option ℕ) where
  digit-character : (d : ℕ) → d < 10 → digit other (character d) ≡ some d
  unfolding digit
  digit-character d h = ground arith

  digits_from-place_value :
      (n : ℕ) (ds : List ℕ)
      → IsDigits ds
      → digits_from other n (map character ds) ≡ some (n * 10 ^ length ds + place_value ds)
  unfolding digits_from place_value
  digits_from-place_value n [] h = ap some (omega arith)
  digits_from-place_value n (d ∷ ds) (small, rest) =
      rw (digits_from, digit-character d small)
        (digits_from-place_value (n * 10 + d) ds rest
          ∙ ap some (
              shift n d (10 ^ length ds) (place_value ds)
              ∙ ap (λ b. n * b + place_value (d ∷ ds)) (sym (pow-succ' 10 (length ds)))))
    where
      shift : (n d b v : ℕ) → (n * 10 + d) * b + v ≡ n * (10 * b) + (d * b + v)
      shift n d b v = grind arith

  in_range : (n : ℕ) → n < 2 ^ 31 → positive other (some n) ≡ returns (ℤ.pos n)
  unfolding positive
  in_range n h = ground arith

  -- A text of digits that fits into 31 bits is read as the sum of its places.
  pub parse_int-digits :
      (d : ℕ) (ds : List ℕ)
      → IsDigits (d ∷ ds)
      → place_value (d ∷ ds) < 2 ^ 31
      → parse_int other (map character (d ∷ ds)) ≡ returns (ℤ.pos (place_value (d ∷ ds)))
  unfolding parse_int magnitude
  parse_int-digits d ds h small =
      rw (not_minus, not_plus)
        (ap (positive other) (digits_from-place_value 0 (d ∷ ds) h ∙ ap some start)
          ∙ in_range (place_value (d ∷ ds)) small)
    where
      not_minus : (character d == b'-') ≡ false
      not_minus = ground arith

      not_plus : (character d == b'+') ≡ false
      not_plus = ground arith

      start : 0 * 10 ^ length (d ∷ ds) + place_value (d ∷ ds) ≡ place_value (d ∷ ds)
      start = omega arith
