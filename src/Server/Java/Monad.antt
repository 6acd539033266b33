-- ===== src/Server/Java/Monad.antt =====
-- Laws of sequencing, at a state.
use scalable_key_value_store.Prelude.{◌≡◌, refl}
use scalable_key_value_store.Server.Java.{
  Throwable, throw, Exec, pure, ◌>>=◌, Outcome, returns, throws, continue,
}

pub pure_left : {P A B : Type 0} (a : A) (f : A → Exec P B) (s : P) → (pure a >>= f) s ≡ f a s
unfolding pure ◌>>=◌
pure_left a f s = refl

pub throw_left :
    {P A B : Type 0} (e : Throwable) (f : A → Exec P B) (s : P) → (throw e >>= f) s ≡ throw e s
unfolding throw ◌>>=◌
throw_left e f s = refl

module _ {P A B : Type 0} where
  continue-cong :
      (r : Outcome A) (t : P) (f g : A → Exec P B)
      → ((a : A) (u : P) → f a u ≡ g a u)
      → continue r f t ≡ continue r g t
  continue-cong (returns a) t f g h = h a t
  continue-cong (throws e) t f g h = refl

  pub bind_cong :
      (m : Exec P A) (f g : A → Exec P B) (s : P)
      → ((a : A) (u : P) → f a u ≡ g a u)
      → (m >>= f) s ≡ (m >>= g) s
  unfolding ◌>>=◌
  bind_cong m f g s h = continue-cong (m s).0 (m s).1 f g h

module _ {P A : Type 0} where
  continue-pure : (r : Outcome A) (t : P) → continue r pure t ≡ (r, t)
  unfolding pure
  continue-pure (returns a) t = refl
  continue-pure (throws e) t = refl

  pub bind_pure : (m : Exec P A) (s : P) → (m >>= pure) s ≡ m s
  unfolding ◌>>=◌
  bind_pure m s = continue-pure (m s).0 (m s).1

module _ {P A B C : Type 0} where
  continue_assoc :
      (r : Outcome A) (t : P) (f : A → Exec P B) (g : B → Exec P C)
      → continue (continue r f t).0 g (continue r f t).1 ≡ continue r (λ a. f a >>= g) t
  unfolding ◌>>=◌
  continue_assoc (returns a) t f g = refl
  continue_assoc (throws e) t f g = refl

  pub bind_assoc :
      (m : Exec P A) (f : A → Exec P B) (g : B → Exec P C) (s : P)
      → ((m >>= f) >>= g) s ≡ (m >>= λ a. f a >>= g) s
  unfolding ◌>>=◌
  bind_assoc m f g s = continue_assoc (m s).0 (m s).1 f g
