-- ===== src/Probe/Main/Bounds.antt =====
-- For which arguments `main` stays inside of its texts.
use scalable_key_value_store.Prelude.{
  ℕ, zero, suc, ◌+◌, ◌≤◌, ◌<◌, ◌≡◌, refl, Bool, true, false, Option, none, some, List, [], ◌∷◌,
  ◌++◌, arith, length, get_elem?, All, length-append, if◌then◌else◌,
}
use scalable_key_value_store.Probe.Macros.{
  Text, codes, Macros, Part, absent, undeclared, part, Facts, has,
}
use scalable_key_value_store.Probe.Compiler.{identify}
use scalable_key_value_store.Probe.Platform.{platform_id}
use scalable_key_value_store.Probe.Standard.{cxx_std, standard, has_extensions}
use scalable_key_value_store.Probe.Strings.{
  info_compiler, info_simulate, info_version, info_version_internal, info_simulate_version,
  info_platform, info_cray, info_language_standard_default, info_language_extensions_default,
  bracket, standard_text, simulate_part, either, numbers,
}
use scalable_key_value_store.Probe.Main.{
  undefined, returns, compiles, is_defined, text_of, when, required, add_to, sum_at, main,
}

abbrev pub IsLong : Text → Type 0
IsLong t = 15 ≤ length t

-- A text can be read at its end, where its zero byte stands, and nowhere behind it.
pub inside : (t : Text) (i : ℕ) → i ≤ length t → (c : ℕ) × (get_elem? (t ++ 0 ∷ []) i ≡ some c)
inside [] zero h = (0, refl)
inside [] (suc i) h = absurd (omega arith)
inside (c ∷ t) zero h = (c, refl)
inside (c ∷ t) (suc i) h = inside t i (omega arith)

pub outside : (t : Text) (i : ℕ) → length t < i → get_elem? (t ++ 0 ∷ []) i ≡ none
outside [] zero h = absurd (omega arith)
outside [] (suc i) h = refl
outside (c ∷ t) zero h = absurd (omega arith)
outside (c ∷ t) (suc i) h = outside t i (omega arith)

pub sum_inside :
    (i n : ℕ) (texts : List Text)
    → All (λ t. i ≤ length t) texts
    → (r : ℕ) × (sum_at i (some n) texts ≡ some r)
unfolding sum_at
sum_inside i n [] long = (n, refl)
sum_inside i n (t ∷ texts) long =
    let (c, found) = inside t i long.0 in
    let (r, rest) = sum_inside i (n + c) texts long.1 in (r, rw found rest)

pub each_reaches :
    (i : ℕ) (texts : List Text) → i ≤ 15 → All IsLong texts → All (λ t. i ≤ length t) texts
each_reaches i [] h long = tt
each_reaches i (t ∷ texts) h long = (omega (arith, long.0), each_reaches i texts h long.1)

sum_none : (i : ℕ) (texts : List Text) → sum_at i none texts ≡ none
unfolding sum_at
sum_none i [] = refl
sum_none i (t ∷ texts) = sum_none i texts

sum_outside :
    (i n : ℕ) (s t : Text) (texts : List Text)
    → length t < i
    → sum_at i (some n) (s ∷ t ∷ texts) ≡ none
unfolding sum_at
sum_outside i n s t texts h = rw (outside t i h) (sum_none' _)
  where
    sum_none' : (o : Option ℕ) → sum_at i (add_to o none) texts ≡ none
    sum_none' none = sum_none i texts
    sum_none' (some k) = sum_none i texts

pub record AreLong (texts : List Text) : Type 0 where
  pub each : All IsLong texts

pub none_long : AreLong []
none_long = record { each = tt }

pub cons-AreLong : {t : Text} {texts : List Text} → IsLong t → AreLong texts → AreLong (t ∷ texts)
cons-AreLong h rest = record { each = (h, rest.each) }

pub append-AreLong : {xs ys : List Text} → AreLong xs → AreLong ys → AreLong (xs ++ ys)
append-AreLong {xs = []} px py = py
append-AreLong {xs = x ∷ xs} px py =
    cons-AreLong px.each.0 (append-AreLong {xs = xs} (record { each = px.each.1 }) py)

when-AreLong : (b : Bool) (texts : List Text) → AreLong texts → AreLong (when b texts)
when-AreLong true texts h = h
when-AreLong false texts h = none_long

pub prefixed : (name t : Text) → 14 ≤ length name → IsLong (name ++ t ++ b']' ∷ [])
prefixed name t h = omega (
  arith,
  length-append name (t ++ b']' ∷ []),
  length-append t (b']' ∷ []),
  length-append (name ++ t) (b']' ∷ []),
  length-append name t,
)

bracket-AreLong : (name : Text) (p : Part) → 14 ≤ length name → AreLong (text_of (bracket name p))
bracket-AreLong name absent h = none_long
bracket-AreLong name undeclared h = none_long
bracket-AreLong name (part t) h = cons-AreLong (prefixed name t h) none_long

module _ (f : Facts) where
  pub version_long : AreLong (when (is_defined f.version.major) (text_of (info_version f)))
  unfolding info_version
  version_long = when-AreLong (is_defined f.version.major) (text_of (info_version f)) (
      bracket-AreLong (codes "INFO:compiler_version[")
        (either f.compiler_version (numbers f.version)) (omega arith))

  pub internal_long : AreLong (when (is_defined f.internal) (text_of (info_version_internal f)))
  unfolding info_version_internal
  internal_long = when-AreLong (is_defined f.internal) (text_of (info_version_internal f)) (
      bracket-AreLong (codes "INFO:compiler_version_internal[") (either f.internal f.internal_text)
        (omega arith))

  pub simulate_long : AreLong (text_of (info_simulate f))
  unfolding info_simulate
  simulate_long =
      bracket-AreLong (codes "INFO:simulate[") (simulate_part f.simulate_id) (omega arith)

  pub simulate_version_long :
      AreLong (when (is_defined f.simulate.major) (text_of (info_simulate_version f)))
  unfolding info_simulate_version
  simulate_version_long =
      when-AreLong (is_defined f.simulate.major) (text_of (info_simulate_version f))
        (bracket-AreLong (codes "INFO:simulate_version[") (numbers f.simulate) (omega arith))

module _ (m : Macros) where
  first_long : AreLong (info_compiler m ∷ info_platform m ∷ [])
  unfolding info_compiler info_platform
  first_long =
      cons-AreLong
        (prefixed (codes "INFO:compiler[") (codes (identify m).compiler_id) (omega arith))
        (cons-AreLong (prefixed (codes "INFO:platform[") (platform_id m) (omega arith)) none_long)

  pub cray_long : AreLong (when (has m "__CRAYXT_COMPUTE_LINUX_TARGET") (info_cray ∷ []))
  cray_long =
      when-AreLong (has m "__CRAYXT_COMPUTE_LINUX_TARGET") (info_cray ∷ [])
        (cons-AreLong (omega arith) none_long)

  last_long : AreLong (info_language_standard_default m ∷ info_language_extensions_default m ∷ [])
  unfolding info_language_standard_default info_language_extensions_default
  last_long =
      cons-AreLong
        (prefixed (codes "INFO:standard_default[") (standard_text (standard (cxx_std m)))
          (omega arith))
        (cons-AreLong
          (prefixed (codes "INFO:extensions_default[")
            (if has_extensions m then codes "ON" else codes "OFF") (omega arith))
          none_long)

  required-AreLong : (f : Facts) → AreLong (required m f)
  unfolding required
  required-AreLong f =
      append-AreLong
        (append-AreLong
          (append-AreLong
            (append-AreLong
              (append-AreLong (append-AreLong first_long (version_long f)) (internal_long f))
              (simulate_long f))
            (simulate_version_long f))
          cray_long)
        last_long

-- A program that compiles returns if `argc` is at most 15, for each of its texts has as many
-- characters.
main_returns :
    (m : Macros) (argc : ℕ)
    → compiles m ((identify m).facts m) ≡ true
    → argc ≤ 15
    → (n : ℕ) × (main m argc ≡ returns n)
unfolding main
main_returns m argc ok few =
    let (n, sum) =
      sum_inside argc 0 _
        (each_reaches argc _ few (required-AreLong m ((identify m).facts m)).each) in
    (n, rw (ok, sum) refl)

-- A program that compiles reads outside of a text if `argc` is more than the number of characters
-- of its platform text.
main_undefined :
    (m : Macros) (argc : ℕ)
    → compiles m ((identify m).facts m) ≡ true
    → length (info_platform m) < argc
    → main m argc ≡ undefined
unfolding main required
main_undefined m argc ok many =
    rw (ok, sum_outside argc 0 (info_compiler m) (info_platform m) _ many) refl
