-- ===== src/Probe/Macros.antt =====
-- What the preprocessor of an unknown compiler predefines, and what a `#define` may hold.
use Prim.Native.Char.{code}
use Prim.Native.String.{String}
use scalable_key_value_store.Prelude.{
  ℕ, Bool, true, false, ◌||◌, if◌then◌else◌, Option, none, some, List, [], ◌∷◌,
}

abbrev pub Text : Type 0
Text = List ℕ

-- the characters of a string literal of the programs
abbrev pub codes : String → Text
codes String.[] = []
codes (String.◌∷◌ c s) = code c ∷ codes s

-- The macros that a compiler predefines. The programs compute with the numbers of some, paste the
-- string literals of others, and spell out what one stands for. A macro is defined if it has a
-- number or a literal.
pub record Macros : Type 0 where
  pub number_of : String → Option ℕ
  pub literal_of : String → Option Text
  pub spelling_of : String → Text

module _ {A : Type 0} where
  abbrev pub is_some : Option A → Bool
  is_some none = false
  is_some (some a) = true

-- `defined(X)` for a macro that stands for a number, or for no more than being defined
abbrev pub has : Macros → String → Bool
has m name = is_some (m.number_of name)

-- `defined(X)` for a macro that stands for a string literal
abbrev pub has_literal : Macros → String → Bool
has_literal m name = is_some (m.literal_of name)

abbrev pub or_zero : Option ℕ → ℕ
or_zero none = 0
or_zero (some n) = n

-- In the condition of an `#if` a name that is not defined counts as 0.
abbrev pub number : Macros → String → ℕ
number m name = or_zero (m.number_of name)

-- What a macro of the program stands for: it may be undefined, or its replacement may name
-- something that nothing declares, so that the program does not compile where it is used.
pub data Part : Type 0 where
  absent undeclared : Part
  part : Text → Part

abbrev pub convert : (ℕ → Text) → Option ℕ → Part
convert f none = undeclared
convert f (some n) = part (f n)

abbrev pub paste : Option Text → Part
paste none = undeclared
paste (some t) = part t

-- the four macros of a version, major to tweak
pub record Version : Type 0 where
  pub major : Part
  pub minor : Part
  pub patch : Part
  pub tweak : Part

abbrev pub no_version : Version
no_version = record { major = absent; minor = absent; patch = absent; tweak = absent }

-- What one branch of the identification defines: COMPILER_VERSION and those with a suffix,
-- SIMULATE_ID and SIMULATE_VERSION. The identifier is the branch's own.
pub record Facts : Type 0 where
  pub compiler_version : Part
  pub version : Version
  pub internal : Part
  pub internal_text : Part
  pub simulate_id : Option Text
  pub simulate : Version

abbrev pub no_facts : Facts
no_facts = record {
  compiler_version = absent;
  version = no_version;
  internal = absent;
  internal_text = absent;
  simulate_id = none;
  simulate = no_version;
}

-- a branch of `#if ... #elif`: COMPILER_ID, the condition, and what else is defined
pub record Branch : Type 0 where
  pub compiler_id : String
  pub holds : Macros → Bool
  pub facts : Macros → Facts

abbrev pub has_any : Macros → List String → Bool
has_any m [] = false
has_any m (name ∷ names) = has m name || has_any m names

-- `#if defined(...) || ...`, with `#elif` branches, and an `#else` that leaves the text empty
unfoldable pub choose : Macros → List (List String × (Macros → Text)) → Text
choose m [] = []
choose m ((names, text) ∷ rest) =
    let others = choose m rest in if has_any m names then text m else others
