-- ===== src/Server/Threads/Guard.antt =====
-- What a thread relies on while others append to the log, and what it promises.
use scalable_key_value_store.Prelude.{
  ℕ, zero, suc, ◌-◌, ◌≤◌, ◌<◌, ◌≡◌, ap, sym, ◌∙◌, some, List, [], ◌∷◌, ◌++◌, length, get_elem?,
  arith, length-append,
}
use mathlib.Core.List.{append-nil, append_assoc}
use scalable_key_value_store.Server.Sql.{Text, LogEntry}
use scalable_key_value_store.Server.Threads.Calls.{
  Call, Answer, Prog, and_then, ended, failed, call, read_leads, read_term, read_peers,
  read_replicated, write_role, write_term, write_vote, write_indices, send, get_last_log_index,
  get_log_entry, append_log_entry, get_commit_index, set_commit_index, get_last_applied,
  set_last_applied, update_key_value, get_value,
}

abbrev pub Log : Type 0
Log = List LogEntry

-- The longer log begins with the shorter.
pub record Extends (l l' : Log) : Type 0 where
  pub more : Log
  pub joined : l' ≡ l ++ more

pub Extends-refl : (l : Log) → Extends l l
Extends-refl l = record { more = []; joined = sym (append-nil l) }

pub Extends-trans : {l l' l'' : Log} → Extends l l' → Extends l' l'' → Extends l l''
Extends-trans {l} e f = record {
  more = e.more ++ f.more;
  joined = f.joined ∙ ap (λ xs. xs ++ f.more) e.joined ∙ append_assoc l e.more f.more;
}

-- An entry of the log writes the value to the key.
pub record IsWritten (key value : Text) (l : Log) : Type 0 where
  pub place : ℕ
  pub entry : LogEntry
  pub stands : get_elem? l place ≡ some entry
  pub of_key : entry.key ≡ key
  pub of_value : entry.value ≡ value

module _ {A : Type 0} where
  get_elem?-append :
      (xs ys : List A) (n : ℕ) (a : A) → get_elem? xs n ≡ some a → get_elem? (xs ++ ys) n ≡ some a
  get_elem?-append [] ys n a h = absurd (cc)
  get_elem?-append (x ∷ xs) ys zero a h = h
  get_elem?-append (x ∷ xs) ys (suc n) a h = get_elem?-append xs ys n a h

-- What is written stays written, and a log does not get shorter.
pub Extends-IsWritten :
    {k v : Text} {l l' : Log} → Extends l l' → IsWritten k v l → IsWritten k v l'
Extends-IsWritten {l} e w = record {
  place = w.place;
  entry = w.entry;
  stands =
      ap (λ xs. get_elem? xs w.place) e.joined ∙ get_elem?-append l e.more w.place w.entry w.stands;
  of_key = w.of_key;
  of_value = w.of_value;
}

pub Extends-le : {l l' : Log} → Extends l l' → length l ≤ length l'
Extends-le {l} {l'} e = omega (arith, ap length e.joined, length-append l e.more)

-- What a thread may ask for, on a server without peers: indices within the log, and values that
-- the log writes.
abbrev pub IsAllowed : Call → Log → Type 0
IsAllowed (get_log_entry n) l = 0 < n
IsAllowed (set_commit_index n) l = n ≤ length l
IsAllowed (set_last_applied n) l = n ≤ length l
IsAllowed (update_key_value k v) l = IsWritten k v l
IsAllowed (send delay peer) l = ⊥
IsAllowed read_leads l = Unit
IsAllowed read_term l = Unit
IsAllowed read_peers l = Unit
IsAllowed (read_replicated n) l = Unit
IsAllowed (write_role role) l = Unit
IsAllowed (write_term term) l = Unit
IsAllowed write_vote l = Unit
IsAllowed (write_indices last) l = Unit
IsAllowed get_last_log_index l = Unit
IsAllowed (append_log_entry e) l = Unit
IsAllowed get_commit_index l = Unit
IsAllowed get_last_applied l = Unit
IsAllowed (get_value k) l = Unit

-- What an answer says of the log behind the access.
abbrev pub IsTold : (c : Call) → Answer c → Log → Type 0
IsTold read_peers peers l = peers ≡ []
IsTold get_last_log_index n l = n ≡ length l
IsTold (get_log_entry n) o l = o ≡ get_elem? l (n - 1)
IsTold (append_log_entry e) n l = IsWritten e.key e.value l
IsTold get_commit_index n l = n ≤ length l
IsTold get_last_applied n l = n ≤ length l
IsTold (get_value k) o l = (v : Text) → o ≡ some v → IsWritten k v l
IsTold read_leads b l = Unit
IsTold read_term term l = Unit
IsTold (read_replicated n) b l = Unit
IsTold (write_role role) u l = Unit
IsTold (write_term term) u l = Unit
IsTold write_vote u l = Unit
IsTold (write_indices last) u l = Unit
IsTold (send delay peer) u l = Unit
IsTold (set_commit_index n) u l = Unit
IsTold (set_last_applied n) u l = Unit
IsTold (update_key_value k v) u l = Unit

module _ {A : Type 0} (Q : A → Log → Type 0) where
  -- Whatever others append between its accesses, the program asks only for what is allowed, does
  -- not fail, and ends with a result as described.
  unfoldable pub IsSafe : Prog A → Log → Type 0
  IsSafe (ended a) l = Q a l
  IsSafe (failed e) l = ⊥
  IsSafe (call c k) l =
      (now : Log)
      → Extends l now
      → IsAllowed c now
        × ((x : Answer c) (after : Log) → Extends now after → IsTold c x after → IsSafe (k x) after)

module _ {A B : Type 0} (Q : A → Log → Type 0) (R : B → Log → Type 0) where
  pub IsSafe-bind :
      (p : Prog A) (f : A → Prog B) (l : Log)
      → IsSafe Q p l
      → ((a : A) (after : Log) → Extends l after → Q a after → IsSafe R (f a) after)
      → IsSafe R (and_then p f) l
  unfolding IsSafe
  IsSafe-bind (ended a) f l h k = k a l (Extends-refl l) h
  IsSafe-bind (failed e) f l h k = h
  IsSafe-bind (call c p) f l h k = λ now e. (
    (h now e).0,
    λ x after e' told.
        IsSafe-bind (p x) f after ((h now e).1 x after e' told)
          λ a last e'' q. k a last (Extends-trans e (Extends-trans e' e'')) q,
  )

module _ {A : Type 0} (Q R : A → Log → Type 0) where
  pub IsSafe-weaken :
      (p : Prog A) (l : Log)
      → IsSafe Q p l
      → ((a : A) (after : Log) → Extends l after → Q a after → R a after)
      → IsSafe R p l
  unfolding IsSafe
  IsSafe-weaken (ended a) l h k = k a l (Extends-refl l) h
  IsSafe-weaken (failed e) l h k = h
  IsSafe-weaken (call c p) l h k = λ now e. (
    (h now e).0,
    λ x after e' told.
        IsSafe-weaken (p x) after ((h now e).1 x after e' told)
          λ a last e'' q. k a last (Extends-trans e (Extends-trans e' e'')) q,
  )

module _ {A : Type 0} (Q : A → Log → Type 0) where
  -- Others may append at any time.
  pub Extends-IsSafe :
      (p : Prog A) {l l' : Log}
      → ((a : A) (m m' : Log) → Extends m m' → Q a m → Q a m')
      → Extends l l'
      → IsSafe Q p l
      → IsSafe Q p l'
  unfolding IsSafe
  Extends-IsSafe (ended a) stable e h = stable a _ _ e h
  Extends-IsSafe (failed x) stable e h = h
  Extends-IsSafe (call c k) stable e h = λ now e'. h now (Extends-trans e e')
