-- ===== src/Probe/Compiler/Chain.antt =====
-- Which branch is taken.

use text.Mathlib.Text.{◌==◌}
use text.Mathlib.TextEquality.{eq_iff}
use scalable_key_value_store.Prelude.{
  ◌≡◌, ◌≢◌, refl, Bool, true, ◌||◌, ◌&&◌, not, List, [], ◌∷◌, ◌++◌, All, Bool-cases, inl, inr,
  arith, take, drop,
}
use scalable_key_value_store.Probe.Macros.{Macros, Branch, has}
use scalable_key_value_store.Probe.Compiler.{first, identify, branches}
use scalable_key_value_store.Probe.Vendors.Intel.{intel}
use scalable_key_value_store.Probe.Vendors.Systems.{nvhpc}
use scalable_key_value_store.Probe.Vendors.Clang.{clang}

-- If the condition of a branch holds, then what that branch and those in front of it are known by
-- holds of the branch that is taken.
first_held :
    (P : Branch → Type 0) (m : Macros) (front : List Branch) (b : Branch) (rest : List Branch)
    → All P front
    → P b
    → b.holds m ≡ true
    → P (first m (front ++ b ∷ rest))
unfolding first
first_held P m [] b rest all p h = rw h p
first_held P m (c ∷ front) b rest all p h = elim (Bool-cases (c.holds m)) [
  | inl held ↦ rw held all.0
  | inr fails ↦ rw fails (first_held P m front b rest all.1 p h)
]

-- whether the identifier is neither that of GNU nor that of MSVC
abbrev pub is_other : Branch → Bool
is_other b = not (b.compiler_id == "GNU") && not (b.compiler_id == "MSVC")

abbrev all_of {ℓ} : {A : Type ℓ} → (A → Bool) → List A → Bool
all_of f [] = true
all_of f (x ∷ xs) = f x && all_of f xs

all_of-All : (f : Branch → Bool) (bs : List Branch) → all_of f bs ≡ true → All (λ b. f b ≡ true) bs
all_of-All f [] h = tt
all_of-All f (b ∷ bs) h = (ground arith, all_of-All f bs (ground arith))

-- A branch whose condition holds, with none of GNU and MSVC up to it, keeps both away.
pub held_other :
    (m : Macros) (front : List Branch) (b : Branch) (rest : List Branch)
    → all_of is_other (b ∷ front) ≡ true
    → b.holds m ≡ true
    → is_other (first m (front ++ b ∷ rest)) ≡ true
held_other m front b rest others h =
    let all = all_of-All is_other (b ∷ front) others in
    first_held (λ c. is_other c ≡ true) m front b rest all.1 all.0 h

imitator_other :
    (m : Macros)
    → (has m "__clang__" || has m "__INTEL_COMPILER" || has m "__NVCOMPILER") ≡ true
    → is_other (identify m) ≡ true
unfolding identify
imitator_other m h = elim (Bool-cases (has m "__clang__")) [
  | inl held ↦ held_other m (take 27 branches) clang (drop 28 branches) refl held
  | inr fails ↦ elim (Bool-cases (has m "__INTEL_COMPILER")) [
    | inl held ↦ held_other m (take 1 branches) intel (drop 2 branches) refl (rw held refl)
    | inr neither ↦ held_other m (take 16 branches) nvhpc (drop 17 branches) refl (ground arith)
  ]
]

-- A compiler that calls itself Clang, Intel's, or NVIDIA's is taken neither for GNU nor for MSVC,
-- whatever else it defines.
pub imitator_known :
    (m : Macros)
    → (has m "__clang__" || has m "__INTEL_COMPILER" || has m "__NVCOMPILER") ≡ true
    → ((identify m).compiler_id ≢ "GNU") × ((identify m).compiler_id ≢ "MSVC")
imitator_known m h =
    let other = imitator_other m h in
    let id = (identify m).compiler_id in
    (ground (arith, eq_iff id "GNU"), ground (arith, eq_iff id "MSVC"))
