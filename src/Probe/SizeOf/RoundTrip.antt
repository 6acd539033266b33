-- ===== src/Probe/SizeOf/RoundTrip.antt =====
-- A reader of the text gets the size back.
use scalable_key_value_store.Prelude.{
  ℕ, ◌+◌, ◌*◌, ◌/◌, ◌%◌, ◌^◌, ◌≤◌, ◌<◌, ◌≡◌, refl, ap, ◌∙◌, some, [], ◌∷◌, ◌++◌, arith, length,
  drop,
}
use scalable_key_value_store.Probe.Macros.{Text, Macros}
use scalable_key_value_store.Probe.Main.{returns}
use scalable_key_value_store.Probe.Main.Bounds.{inside}
use scalable_key_value_store.Probe.Strings.RoundTrip.{scan, scan-digit, last_digit}
use scalable_key_value_store.Probe.SizeOf.{size_digits, key, key_text, info_size, main}

five :
    (n : ℕ)
    → ((((0 * 10 + n / 10000 % 10) * 10 + n / 1000 % 10) * 10 + n / 100 % 10) * 10 + n / 10 % 10)
          * 10
        + n % 10
      ≡ n % 10 ^ 5
five n = omega arith

scan-size_digits : (n : ℕ) (s : Text) → scan 0 (size_digits n ++ s) ≡ scan (n % 10 ^ 5) s
unfolding size_digits
scan-size_digits n s =
    scan-digit _ _ _ (last_digit _)
    ∙ scan-digit _ _ _ (last_digit _)
    ∙ scan-digit _ _ _ (last_digit _)
    ∙ scan-digit _ _ _ (last_digit _)
    ∙ scan-digit _ _ _ (last_digit _)
    ∙ ap (λ k. scan k s) (five n)

-- A size below 100000 stands behind the ten characters of the text's name.
scan-info_size :
    (m : Macros) (size : ℕ) → size < 10 ^ 5 → scan 0 (drop 10 (info_size m size)) ≡ size ∷ []
unfolding info_size scan
scan-info_size m size small =
    scan-size_digits size (b']' ∷ key_text (key m)) ∙ ap (λ k. k ∷ []) (omega arith)

-- The program returns if its argument is at most the length of its text, and else it reads
-- outside of it.
pub size_returns :
    (m : Macros) (size argc : ℕ)
    → argc ≤ length (info_size m size)
    → (n : ℕ) × (main m (some size) argc ≡ returns n)
unfolding main
size_returns m size argc few =
    let (n, found) = inside (info_size m size) argc few in (n, rw found refl)
