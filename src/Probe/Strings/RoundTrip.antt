-- ===== src/Probe/Strings/RoundTrip.antt =====
-- A reader of the version gets its numbers back.
use scalable_key_value_store.Prelude.{
  ℕ, zero, suc, ◌+◌, ◌-◌, ◌*◌, ◌/◌, ◌%◌, ◌^◌, ◌≤◌, ◌<◌, ◌≡◌, refl, ap, ◌∙◌, false, ◌==◌, List, [],
  ◌∷◌, ◌++◌, arith, map, if◌then◌else◌, drop, length,
}
use scalable_key_value_store.Probe.Macros.{Text, codes, Part, absent, part, Version, Facts}
use mathlib.Core.List.{append_assoc}
use scalable_key_value_store.Probe.Digits.{dec}
use scalable_key_value_store.Probe.Digits.RoundTrip.{shift_back}
use scalable_key_value_store.Probe.Strings.{numbers, info_version}

-- numbers with dots between them, up to a bracket; `n` is what was read of the present one
unfoldable pub scan : ℕ → Text → List ℕ
scan n [] = []
scan n (c ∷ s) =
    let next = n ∷ scan 0 s in
    let more = scan (n * 10 + (c - b'0')) s in
    if c == b']' then n ∷ [] else if c == b'.' then next else more

not_bracket : (x : ℕ) → x < 10 → ((b'0' + x) == b']') ≡ false
not_bracket x h = ground arith

not_dot : (x : ℕ) → x < 10 → ((b'0' + x) == b'.') ≡ false
not_dot x h = ground arith

pub scan-digit : (n x : ℕ) (s : Text) → x < 10 → scan n ((b'0' + x) ∷ s) ≡ scan (n * 10 + x) s
unfolding scan
scan-digit n x s h = rw (not_bracket x h, not_dot x h, shift_back x) refl

pub last_digit : (n : ℕ) → n % 10 < 10
last_digit n = omega arith

-- the digits of DEC put together
eight :
    (n : ℕ)
    → (((((((0 * 10 + n / 10000000 % 10) * 10 + n / 1000000 % 10) * 10 + n / 100000 % 10) * 10
                        + n / 10000 % 10)
                      * 10
                    + n / 1000 % 10)
                  * 10
                + n / 100 % 10)
              * 10
            + n / 10 % 10)
          * 10
        + n % 10
      ≡ n % 10 ^ 8
eight n = omega arith

scan-dec : (n : ℕ) (s : Text) → scan 0 (dec n ++ s) ≡ scan (n % 10 ^ 8) s
unfolding dec
scan-dec n s =
    scan-digit _ _ _ (last_digit _)
    ∙ scan-digit _ _ _ (last_digit _)
    ∙ scan-digit _ _ _ (last_digit _)
    ∙ scan-digit _ _ _ (last_digit _)
    ∙ scan-digit _ _ _ (last_digit _)
    ∙ scan-digit _ _ _ (last_digit _)
    ∙ scan-digit _ _ _ (last_digit _)
    ∙ scan-digit _ _ _ (last_digit _)
    ∙ ap (λ k. scan k s) (eight n)

abbrev pub nth : List ℕ → ℕ → Part
nth [] i = absent
nth (n ∷ ns) zero = part (dec n)
nth (n ∷ ns) (suc i) = nth ns i

-- the version that has these numbers, from the major one on
abbrev numbered : List ℕ → Version
numbered ns = record { major = nth ns 0; minor = nth ns 1; patch = nth ns 2; tweak = nth ns 3 }

abbrev join : List ℕ → Text
join [] = []
join (n ∷ ns) = b'.' ∷ dec n ++ join ns

numbers-numbered :
    (n : ℕ) (ns : List ℕ) → length ns ≤ 3 → numbers (numbered (n ∷ ns)) ≡ part (dec n ++ join ns)
unfolding numbers
numbers-numbered n [] h = refl
numbers-numbered n (a ∷ []) h = refl
numbers-numbered n (a ∷ b ∷ []) h = refl
numbers-numbered n (a ∷ b ∷ c ∷ []) h = refl
numbers-numbered n (a ∷ b ∷ c ∷ d ∷ ns) h = absurd (omega arith)

abbrev reduced : List ℕ → List ℕ
reduced = map (λ n. n % 10 ^ 8)

scan-join : (n : ℕ) (ns : List ℕ) → scan 0 ((dec n ++ join ns) ++ b']' ∷ []) ≡ reduced (n ∷ ns)
unfolding scan
scan-join n [] = ap (scan 0) (append_assoc (dec n) [] (b']' ∷ [])) ∙ scan-dec n (b']' ∷ [])
scan-join n (k ∷ ns) =
    ap (scan 0) (append_assoc (dec n) (join (k ∷ ns)) (b']' ∷ []))
    ∙ scan-dec n (join (k ∷ ns) ++ b']' ∷ [])
    ∙ ap (λ rest. n % 10 ^ 8 ∷ rest) (scan-join k ns)

-- The version text of a compiler with one to four version numbers gives each of them back, as far
-- as its last eight digits: behind the 22 characters of its name, numbers stand between dots.
info_version-numbered :
    (f : Facts) (n : ℕ) (ns : List ℕ)
    → length ns ≤ 3
    → f.compiler_version ≡ absent
    → f.version ≡ numbered (n ∷ ns)
    → (t : Text) × (info_version f ≡ part t) × (scan 0 (drop 22 t) ≡ reduced (n ∷ ns))
unfolding info_version
info_version-numbered f n ns few none_given given = (
  codes "INFO:compiler_version[" ++ (dec n ++ join ns) ++ b']' ∷ [],
  rw (none_given, given, numbers-numbered n ns few) refl,
  scan-join n ns,
)
