-- ===== src/Server/Java/Laws.antt =====
-- Total correctness: an action that returns from a state, with a result and a state as described.
use scalable_key_value_store.Prelude.{
  ◌≡◌, refl, ◌∙◌, ap, Option, none, some, Bool, true, false, if◌then◌else◌,
}
use scalable_key_value_store.Server.Java.{
  Outcome, returns, throws, Throwable, Exec, pure, throw, gets, non_null, modify, continue, ◌>>=◌,
}

pub record Ends {P A : Type 0} (m : Exec P A) (s : P) (Q : A → P → Type 0) : Type 0 where
  pub result : A
  pub state : P
  pub runs : m s ≡ (returns result, state)
  pub holds : Q result state

module _ {P A : Type 0} {Q : A → P → Type 0} where
  pub Ends-pure : (a : A) (s : P) → Q a s → Ends (pure a) s Q
  unfolding pure
  Ends-pure a s q = record { result = a; state = s; runs = refl; holds = q }

  pub Ends-gets : (f : P → A) (s : P) → Q (f s) s → Ends (gets f) s Q
  unfolding gets
  Ends-gets f s q = record { result = f s; state = s; runs = refl; holds = q }

pub Ends-modify :
    {P : Type 0} {Q : Unit {0} → P → Type 0} (f : P → P) (s : P) → Q tt (f s) → Ends (modify f) s Q
unfolding modify
Ends-modify f s q = record { result = tt; state = f s; runs = refl; holds = q }

module _ {P A : Type 0} {Q R : A → P → Type 0} where
  pub Ends-mono :
      {m : Exec P A} {s : P} → Ends m s Q → ((a : A) (t : P) → Q a t → R a t) → Ends m s R
  Ends-mono e f = record {
    result = e.result;
    state = e.state;
    runs = e.runs;
    holds = f e.result e.state e.holds;
  }

module _ {P A B : Type 0} {Q : A → P → Type 0} {R : B → P → Type 0} where
  pub Ends-bind :
      (m : Exec P A) (f : A → Exec P B) (s : P)
      → Ends m s Q
      → ((a : A) (t : P) → Q a t → Ends (f a) t R)
      → Ends (m >>= f) s R
  unfolding ◌>>=◌
  Ends-bind m f s e k =
      let rest = k e.result e.state e.holds in
      record {
        result = rest.result;
        state = rest.state;
        runs = ap (λ (p : Outcome A × P). continue p.0 f p.1) e.runs ∙ rest.runs;
        holds = rest.holds;
      }

module _ {P A : Type 0} {Q : A → P → Type 0} where
  pub Ends-non_null : (o : Option A) (a : A) (s : P) → o ≡ some a → Q a s → Ends (non_null o) s Q
  unfolding non_null pure
  Ends-non_null o a s e q = record { result = a; state = s; runs = rw (e, non_null); holds = q }

-- The action keeps the predicate, whether it returns or throws.
pub record Keeps {P A : Type 0} (I : P → Type 0) (m : Exec P A) : Type 0 where
  pub at : (s : P) → I s → I (m s).1

module _ {P A : Type 0} {I : P → Type 0} where
  pub Keeps-pure : (a : A) → Keeps I (pure a)
  unfolding pure
  Keeps-pure a = record { at = λ s h. h }

  pub Keeps-throw : (e : Throwable) → Keeps I (throw {A = A} e)
  unfolding throw
  Keeps-throw e = record { at = λ s h. h }

  pub Keeps-gets : (f : P → A) → Keeps I (gets f)
  unfolding gets
  Keeps-gets f = record { at = λ s h. h }

  pub Keeps-non_null : (o : Option A) → Keeps I (non_null o)
  unfolding non_null
  Keeps-non_null none = record { at = λ s h. h }
  Keeps-non_null (some a) = record { at = λ s h. h }

  pub Keeps-if : (b : Bool) (m n : Exec P A) → Keeps I m → Keeps I n → Keeps I (if b then m else n)
  Keeps-if true m n km kn = km
  Keeps-if false m n km kn = kn

pub Keeps-modify :
    {P : Type 0} {I : P → Type 0} (f : P → P) → ((s : P) → I s → I (f s)) → Keeps I (modify f)
unfolding modify
Keeps-modify f h = record { at = h }

module _ {P A B : Type 0} {I : P → Type 0} where
  continue-Keeps :
      (f : A → Exec P B) (r : Outcome A) (t : P)
      → I t
      → ((a : A) → Keeps I (f a))
      → I (continue r f t).1
  continue-Keeps f (returns a) t h k = (k a).at t h
  continue-Keeps f (throws e) t h k = h

  pub Keeps-bind :
      (m : Exec P A) (f : A → Exec P B) → Keeps I m → ((a : A) → Keeps I (f a)) → Keeps I (m >>= f)
  unfolding ◌>>=◌
  Keeps-bind m f km kf = record { at = λ s h. continue-Keeps f (m s).0 (m s).1 (km.at s h) kf }

pub ruleset keeps_rules =
    (Keeps-pure, Keeps-throw, Keeps-gets, Keeps-non_null, Keeps-if, Keeps-modify, Keeps-bind)
