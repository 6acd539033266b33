-- ===== src/Server/Java.antt =====
-- What the server takes from Java: exceptions and methods that mutate their object.
-- What was written before a throw stays written, so the state comes back beside the outcome.
pub mod Laws
pub mod Leaves
pub mod Monad
use scalable_key_value_store.Prelude.{ℕ, Option, none, some}

pub data Throwable : Type 0 where
  runtime_exception null_pointer_exception class_cast_exception : Throwable
  array_index_out_of_bounds_exception number_format_exception : Throwable
  -- what code outside the repository throws
  other_exception : ℕ → Throwable

pub data Outcome (A : Type 0) : Type 0 where
  returns : A → Outcome A
  throws : Throwable → Outcome A

abbrev pub Exec : Type 0 → Type 0 → Type 0
Exec P A = P → Outcome A × P

module _ {P A : Type 0} where
  unfoldable pub pure : A → Exec P A
  pure a s = (returns a, s)

  unfoldable pub throw : Throwable → Exec P A
  throw e s = (throws e, s)

  unfoldable pub gets : (P → A) → Exec P A
  gets f s = (returns (f s), s)

  -- A reference that is used without a test for null.
  unfoldable pub non_null : Option A → Exec P A
  unfolding pure throw
  non_null none = throw null_pointer_exception
  non_null (some a) = pure a

unfoldable pub modify : {P : Type 0} → (P → P) → Exec P (Unit {0})
modify f s = (returns tt, f s)

module _ {P A B : Type 0} where
  abbrev pub continue : Outcome A → (A → Exec P B) → Exec P B
  continue (returns a) f s = f a s
  continue (throws e) f s = (throws e, s)

  infixl 5 ◌>>=◌ ◌>>◌
  -- opening this opens the actions above
  unfoldable pub ◌>>=◌ : Exec P A → (A → Exec P B) → Exec P B
  unfolding pure throw gets non_null modify
  ◌>>=◌ m f s = let (r, s') = m s in continue r f s'

  abbrev pub ◌>>◌ : Exec P A → Exec P B → Exec P B
  m >> n = m >>= λ _. n
