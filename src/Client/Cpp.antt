-- ===== src/Client/Cpp.antt =====
pub mod Laws
pub mod Strings
-- What the client takes from C++: exceptions, undefined behaviour, character arrays.
-- A function that may throw returns the process state beside its outcome: what was written before
-- a throw stays written.
use scalable_key_value_store.Prelude.{ℕ, zero, suc, Option, none, some, List, [], ◌∷◌}

-- The bytes of a `std::string`, which may hold zeros.
abbrev pub Text : Type 0
Text = List ℕ

-- `LeaderRedirectException`, any other `std::exception`, and what is no `std::exception`.
pub data Exception : Type 0 where
  leader_redirect : Text → Exception
  std_exception : Exception
  foreign : Exception

-- `undefined` is undefined behaviour: a null dereference, or an access out of bounds.
pub data Outcome (A : Type 0) : Type 0 where
  returns : A → Outcome A
  throws : Exception → Outcome A
  undefined : Outcome A

abbrev pub Exec : Type 0 → Type 0 → Type 0
Exec P A = P → Outcome A × P

module _ {P A : Type 0} where
  unfoldable pub pure : A → Exec P A
  pure a s = (returns a, s)

  unfoldable pub throw : Exception → Exec P A
  throw e s = (throws e, s)

  unfoldable pub crash : Exec P A
  crash s = (undefined, s)

  unfoldable pub gets : (P → A) → Exec P A
  gets f s = (returns (f s), s)

  -- An object behind a pointer that may be null.
  unfoldable pub deref : Option A → Exec P A
  unfolding pure crash
  deref none = crash
  deref (some a) = pure a

  abbrev pub handle : (Exception → Exec P A) → Outcome A → P → Outcome A × P
  handle h (returns a) s = (returns a, s)
  handle h (throws e) s = h e s
  handle h undefined s = (undefined, s)

  -- try { m } catch { h }
  unfoldable pub try_catch : Exec P A → (Exception → Exec P A) → Exec P A
  try_catch m h s = let (r, s') = m s in handle h r s'

unfoldable pub modify : {P : Type 0} → (P → P) → Exec P (Unit {0})
modify f s = (returns tt, f s)

module _ {P A B : Type 0} where
  abbrev pub continue : Outcome A → (A → Exec P B) → Exec P B
  continue (returns a) f s = f a s
  continue (throws e) f s = (throws e, s)
  continue undefined f s = (undefined, s)

  infixl 5 ◌>>=◌ ◌>>◌
  -- opening this opens the actions above
  unfoldable pub ◌>>=◌ : Exec P A → (A → Exec P B) → Exec P B
  unfolding pure throw crash gets deref try_catch modify
  ◌>>=◌ m f s = let (r, s') = m s in continue r f s'

  abbrev pub ◌>>◌ : Exec P A → Exec P B → Exec P B
  m >> n = m >>= λ _. n

-- The memory that a `char *` points to, up to the end of its allocation.
abbrev pub CharArray : Type 0
CharArray = List ℕ

-- The bytes in front of the first zero byte; `none` where the array holds none.
unfoldable pub c_string : CharArray → Option Text
c_string [] = none
c_string (zero ∷ rest) = some []
c_string (suc c ∷ rest) = elim (c_string rest) [ none ↦ none | some text ↦ some ((suc c) ∷ text) ]
