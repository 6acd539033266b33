-- ===== src/Client/Cpp/Laws.antt =====
-- Frame rules for the actions of `Client.Cpp`: what an action leaves alone, however it ends.
use scalable_key_value_store.Prelude.{
  ◌≡◌, refl, ◌∙◌, Bool, true, false, Option, none, some, if◌then◌else◌,
}
use scalable_key_value_store.Client.Cpp.{
  Exception, Outcome, returns, throws, undefined, Exec, pure, throw, crash, gets, deref, try_catch,
  continue, handle, ◌>>=◌,
}

-- The action leaves that part of the state alone.
pub record Keeps {P X A : Type 0} (field : P → X) (m : Exec P A) : Type 0 where
  pub at : (s : P) → field (m s).1 ≡ field s

module _ {P X A : Type 0} {field : P → X} where
  pub Keeps-pure : (a : A) → Keeps field (pure {P = P} a)
  unfolding pure
  Keeps-pure a = record { at = λ s. refl }

  pub Keeps-throw : (e : Exception) → Keeps field (throw {P = P} {A = A} e)
  unfolding throw
  Keeps-throw e = record { at = λ s. refl }

  pub Keeps-crash : Keeps field (crash {P = P} {A = A})
  unfolding crash
  Keeps-crash = record { at = λ s. refl }

  pub Keeps-gets : (f : P → A) → Keeps field (gets f)
  unfolding gets
  Keeps-gets f = record { at = λ s. refl }

  pub Keeps-deref : (o : Option A) → Keeps field (deref {P = P} o)
  unfolding deref
  Keeps-deref none = record { at = λ s. refl }
  Keeps-deref (some a) = record { at = λ s. refl }

  pub Keeps-if :
      (b : Bool) (m n : Exec P A) → Keeps field m → Keeps field n → Keeps field (if b then m else n)
  Keeps-if true m n km kn = km
  Keeps-if false m n km kn = kn

  handle-field :
      (h : Exception → Exec P A) (r : Outcome A) (s t : P)
      → field t ≡ field s
      → ((x : Exception) → Keeps field (h x))
      → field (handle h r t).1 ≡ field s
  handle-field h (returns a) s t e k = e
  handle-field h (throws x) s t e k = (k x).at t ∙ e
  handle-field h undefined s t e k = e

  pub Keeps-try :
      (m : Exec P A) (h : Exception → Exec P A)
      → Keeps field m
      → ((x : Exception) → Keeps field (h x))
      → Keeps field (try_catch m h)
  unfolding try_catch
  Keeps-try m h km kh = record { at = λ s. handle-field h (m s).0 s (m s).1 (km.at s) kh }

module _ {P X A B : Type 0} {field : P → X} where
  continue-field :
      (f : A → Exec P B) (r : Outcome A) (s t : P)
      → field t ≡ field s
      → ((a : A) → Keeps field (f a))
      → field (continue r f t).1 ≡ field s
  continue-field f (returns a) s t e k = (k a).at t ∙ e
  continue-field f (throws x) s t e k = e
  continue-field f undefined s t e k = e

  pub Keeps-bind :
      (m : Exec P A) (f : A → Exec P B)
      → Keeps field m
      → ((a : A) → Keeps field (f a))
      → Keeps field (m >>= f)
  unfolding ◌>>=◌
  Keeps-bind m f km kf = record { at = λ s. continue-field f (m s).0 s (m s).1 (km.at s) kf }

pub ruleset keeps_rules =
    (Keeps-pure, Keeps-throw, Keeps-crash, Keeps-gets, Keeps-deref, Keeps-if, Keeps-try, Keeps-bind)
