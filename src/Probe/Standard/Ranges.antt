-- ===== src/Probe/Standard/Ranges.antt =====
-- Which numbers of a standard give which two digits.
use scalable_key_value_store.Prelude.{ℕ, ◌≤◌, ◌<◌, ◌≡◌, ◌↔◌, arith}
use scalable_key_value_store.Probe.Standard.{standard}

-- 17 is given for the number of C++17 alone; every number between two standards counts as the
-- older one up to there, and as the newer one from C++17 on.
standard_ranges :
    (n : ℕ)
    → ((standard n ≡ 98) ↔ (n < 201103))
      × ((standard n ≡ 11) ↔ ((201103 ≤ n) × (n < 201402)))
      × ((standard n ≡ 14) ↔ ((201402 ≤ n) × (n < 201703)))
      × ((standard n ≡ 17) ↔ (n ≡ 201703))
      × ((standard n ≡ 20) ↔ ((201703 < n) × (n ≤ 202002)))
      × ((standard n ≡ 23) ↔ (202002 < n))
unfolding standard
standard_ranges n =
    (ground arith, ground arith, ground arith, ground arith, ground arith, ground arith)
