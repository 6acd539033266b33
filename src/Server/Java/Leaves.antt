-- ===== src/Server/Java/Leaves.antt =====
-- Partial correctness with exceptions: what holds behind an action that returns, and what holds
-- behind one that throws.

use scalable_key_value_store.Server.Java.{
  Outcome, returns, throws, Throwable, Exec, throw, continue, ◌>>=◌,
}
use scalable_key_value_store.Server.Java.Laws.{Ends, Keeps}

module _ {P A : Type 0} where
  abbrev After : (A → P → Type 0) → (P → Type 0) → Outcome A → P → Type 0
  After Q E (returns a) t = Q a t
  After Q E (throws e) t = E t

  pub record Leaves (m : Exec P A) (s : P) (Q : A → P → Type 0) (E : P → Type 0) : Type 0 where
    after : After Q E (m s).0 (m s).1

module _ {P A : Type 0} {Q : A → P → Type 0} {E : P → Type 0} where
  pub Leaves-Ends : {m : Exec P A} {s : P} → Ends m s Q → Leaves m s Q E
  Leaves-Ends e = record { after = rw e.runs e.holds }

  pub Leaves-throw : (e : Throwable) (s : P) → E s → Leaves (throw e) s Q E
  unfolding throw
  Leaves-throw e s h = record { after = h }

module _ {P A B : Type 0} {Q : A → P → Type 0} {R : B → P → Type 0} {E : P → Type 0} where
  continue-After :
      (f : A → Exec P B) (r : Outcome A) (t : P)
      → After Q E r t
      → ((a : A) (u : P) → Q a u → Leaves (f a) u R E)
      → After R E (continue r f t).0 (continue r f t).1
  continue-After f (returns a) t h k = (k a t h).after
  continue-After f (throws e) t h k = h

  pub Leaves-bind :
      (m : Exec P A) (f : A → Exec P B) (s : P)
      → Leaves m s Q E
      → ((a : A) (t : P) → Q a t → Leaves (f a) t R E)
      → Leaves (m >>= f) s R E
  unfolding ◌>>=◌
  Leaves-bind m f s h k = record { after = continue-After f (m s).0 (m s).1 h.after k }

module _ {P A : Type 0} (I : P → Type 0) where
  both : (r : Outcome A) (t : P) → After (λ a u. I u) I r t → I t
  both (returns a) t h = h
  both (throws e) t h = h

  either_way : (r : Outcome A) (t : P) → I t → After (λ a u. I u) I r t
  either_way (returns a) t h = h
  either_way (throws e) t h = h

module _ {P A : Type 0} {I : P → Type 0} where
  -- An action keeps a predicate if it holds behind it in both cases.
  pub Keeps-Leaves : {m : Exec P A} → ((s : P) → I s → Leaves m s (λ a u. I u) I) → Keeps I m
  Keeps-Leaves {m} h = record { at = λ s i. both I (m s).0 (m s).1 (h s i).after }

  pub Leaves-Keeps : {m : Exec P A} {s : P} → Keeps I m → I s → Leaves m s (λ a u. I u) I
  Leaves-Keeps {m} {s} k h = record { after = either_way I (m s).0 (m s).1 (k.at s h) }

  pub Leaves-either : {m : Exec P A} {s : P} → Leaves m s (λ a u. I u) I → I (m s).1
  Leaves-either {m} {s} h = both I (m s).0 (m s).1 h.after
