-- ===== src/Server/Threads/Alone.antt =====
-- A thread that no other comes between does what its method does in one step.
use scalable_key_value_store.Prelude.{
  ℕ, zero, suc, ◌-◌, ◌≡◌, refl, ◌∙◌, sym, ap, Bool, true, false, ◌&&◌, Option, none, some, [], ◌∷◌,
  ◌==◌, if◌then◌else◌,
}
use scalable_key_value_store.Server.Java.{
  Outcome, returns, throws, Throwable, Exec, pure, throw, gets, modify, ◌>>=◌, ◌>>◌, continue,
}
use scalable_key_value_store.Server.Java
use scalable_key_value_store.Server.Java.Monad.{
  bind_cong, bind_assoc, pure_left, throw_left, bind_pure,
}
use scalable_key_value_store.Server.Sql.{Text, Engine}
use scalable_key_value_store.Server.Storage
use scalable_key_value_store.Server.Raft.{NodeInfo, Dict, RaftNode, on_storage}
use scalable_key_value_store.Server.Replication
use scalable_key_value_store.Server.Service
use scalable_key_value_store.Server.Service.{get_response, put_response}
use scalable_key_value_store.Server.Threads.Calls.{
  Call, Answer, Prog, and_then, ended, failed, call, ask, read_leads, read_term, read_peers,
  read_replicated, send, get_last_log_index, get_log_entry, append_log_entry, get_commit_index,
  set_commit_index, get_last_applied, set_last_applied, update_key_value, get_value,
}
use scalable_key_value_store.Server.Threads.Programs
use scalable_key_value_store.Server.Threads.Perform.{perform, alone}

module _ {D : Type 0} (sql : Engine D) where
  -- The program, alone, is the action.
  pub record Runs {A : Type 0} (p : Prog A) (m : Exec (RaftNode D) A) : Type 0 where
    pub at : (s : RaftNode D) → alone sql p s ≡ m s

  module _ {A : Type 0} where
    pub Runs-ended : (a : A) → Runs (ended a) (pure a)
    unfolding alone
    Runs-ended a = record { at = λ s. refl }

    pub Runs-failed : (e : Throwable) → Runs {A = A} (failed e) (throw e)
    unfolding alone
    Runs-failed e = record { at = λ s. refl }

    pub Runs-call :
        (c : Call) {k : Answer c → Prog A} {f : Answer c → Exec (RaftNode D) A}
        → ((x : Answer c) → Runs (k x) (f x))
        → Runs (call c k) (perform sql c >>= f)
    unfolding alone
    Runs-call c h = record { at = λ s. bind_cong _ _ _ s λ x t. (h x).at t }

    pub Runs-eq :
        {p : Prog A} {m n : Exec (RaftNode D) A}
        → Runs p m
        → ((s : RaftNode D) → m s ≡ n s)
        → Runs p n
    Runs-eq h e = record { at = λ s. h.at s ∙ e s }

    pub Runs-if :
        (b : Bool) {p q : Prog A} {m n : Exec (RaftNode D) A}
        → Runs p m
        → Runs q n
        → Runs (if b then p else q) (if b then m else n)
    Runs-if true hp hq = hp
    Runs-if false hp hq = hq

  pub Runs-ask : (c : Call) → Runs (ask c) (perform sql c)
  unfolding alone
  Runs-ask c = record { at = λ s. bind_pure _ s }

  module _ {A B : Type 0} (q : A → Prog B) (f : A → Exec (RaftNode D) B)
      (h : (a : A) → Runs (q a) (f a)) where
    alone-bind : (p : Prog A) → Runs (and_then p q) (alone sql p >>= f)
    unfolding alone
    alone-bind (ended a) = Runs-eq (h a) λ s. sym (pure_left a f s)
    alone-bind (failed e) = Runs-eq (Runs-failed e) λ s. sym (throw_left e f s)
    alone-bind (call c k) =
        Runs-eq (Runs-call c λ x. alone-bind (k x)) λ s. sym (bind_assoc _ _ _ s)

  pub Runs-bind :
      {A B : Type 0} {p : Prog A} {m : Exec (RaftNode D) A} {q : A → Prog B}
      {f : A → Exec (RaftNode D) B}
      → Runs p m
      → ((a : A) → Runs (q a) (f a))
      → Runs (and_then p q) (m >>= f)
  unfolding ◌>>=◌
  Runs-bind {p} {m} {q} {f} hp hq =
      Runs-eq (alone-bind q f hq p) λ s. ap (λ r. continue r.0 f r.1) (hp.at s)

  non_null-Runs : {A : Type 0} (o : Option A) → Runs (Programs.non_null o) (Java.non_null o)
  unfolding Programs.non_null Java.non_null
  non_null-Runs none = Runs-failed _
  non_null-Runs (some a) = Runs-ended a

  apply_loop-Runs :
      (rounds n : ℕ) → Runs (Programs.apply_loop rounds n) (Replication.apply_loop sql rounds n)
  unfolding Programs.apply_loop Replication.apply_loop Replication.apply_to_state_machine perform
  apply_loop-Runs zero n = Runs-ended n
  apply_loop-Runs (suc rounds) n = Runs-call (get_log_entry (suc n)) λ o.
      Runs-bind (non_null-Runs o)
        λ e. Runs-call (update_key_value e.key e.value) λ _. apply_loop-Runs rounds (suc n)

  pub apply_committed-Runs :
      Runs Programs.apply_committed_entries (Replication.apply_committed_entries sql)
  unfolding Programs.apply_committed_entries Replication.apply_committed_entries perform
  apply_committed-Runs = Runs-call get_last_applied λ n.
      Runs-call get_commit_index
        λ m. Runs-bind (apply_loop-Runs (m - n) n) λ k. Runs-ask (set_last_applied k)

  commit_if-Runs :
      (n : ℕ) (b : Bool)
      → Runs (Programs.commit_if n b) (
          gets (Replication.replicated n) >>= λ enough.
          if b && enough
          then (on_storage (Storage.set_commit_index sql n)
              >> Replication.apply_committed_entries sql)
          else pure tt)
  unfolding Programs.commit_if perform gets pure ◌>>=◌
  commit_if-Runs n false = Runs-eq (Runs-ended tt) λ s. refl
  commit_if-Runs n true = Runs-call (read_replicated n) λ enough.
      Runs-if enough (Runs-call (set_commit_index n) λ _. apply_committed-Runs) (Runs-ended tt)

  commit_entry-Runs :
      (n term : ℕ) → Runs (Programs.commit_entry n term) (Replication.commit_entry sql n term)
  unfolding Programs.commit_entry Replication.commit_entry perform
  commit_entry-Runs n term = Runs-call read_term λ current. commit_if-Runs n (term == current)

  term_at-Runs : (n : ℕ) → Runs (Programs.term_at n) (Replication.term_at sql n)
  unfolding Programs.term_at Replication.term_at perform
  term_at-Runs n =
      Runs-call (get_log_entry n) λ o. Runs-bind (non_null-Runs o) λ e. Runs-ended e.term

  commit_loop-Runs :
      (rounds n : ℕ) → Runs (Programs.commit_loop rounds n) (Replication.commit_loop sql rounds n)
  unfolding Programs.commit_loop Replication.commit_loop
  commit_loop-Runs zero n = Runs-ended tt
  commit_loop-Runs (suc rounds) n =
      Runs-bind (term_at-Runs n)
        λ term. Runs-bind (commit_entry-Runs n term) λ _. commit_loop-Runs rounds (suc n)

  update-Runs : Runs Programs.update_commit_index (Replication.update_commit_index sql)
  unfolding Programs.update_commit_index Replication.update_commit_index perform
  update-Runs =
      Runs-call get_last_log_index
        λ last. Runs-call get_commit_index λ commit. commit_loop-Runs (last - commit) (suc commit)

  send_all-Runs :
      (random : Text → ℕ) (peers : Dict NodeInfo)
      → Runs (Programs.send_all random peers) (Replication.send_all sql random peers)
  unfolding Programs.send_all Replication.send_all perform
  send_all-Runs random [] = Runs-ended tt
  send_all-Runs random ((id, peer) ∷ peers) =
      Runs-call (send (random id) peer) λ _. send_all-Runs random peers

  replicate-Runs :
      (random : Text → ℕ) (index : ℕ)
      → Runs (Programs.replicate_entry random) (Replication.replicate_entry sql random index)
  unfolding Programs.replicate_entry Replication.replicate_entry perform
  replicate-Runs random index = Runs-call read_peers λ peers.
      Runs-bind (send_all-Runs random peers) λ _. Runs-bind update-Runs λ _. Runs-ended true

  append-Runs :
      (key value : Text)
      → Runs (Programs.append_proposal key value) (Replication.append_proposal sql key value)
  unfolding Programs.append_proposal Replication.append_proposal perform
  append-Runs key value = Runs-call read_term λ term.
      Runs-call (append_log_entry (record { term = term; key = key; value = value }))
        λ _. Runs-ask get_last_log_index

  propose-Runs :
      (random : Text → ℕ) (key value : Text)
      → Runs
          (Programs.propose_entry random key value)
          (Replication.propose_entry sql random key value)
  unfolding Programs.propose_entry Replication.propose_entry perform
  propose-Runs random key value = Runs-call read_leads λ leading.
      Runs-if leading (Runs-bind (append-Runs key value) λ n. replicate-Runs random n)
        (Runs-ended false)

  -- The calls of a PUT, one after the other, are the PUT.
  pub put-Runs :
      (random : Text → ℕ) (key value : Text)
      → Runs (Programs.put random key value) (Service.put sql random key value)
  unfolding Programs.put Service.put
  put-Runs random key value =
      Runs-bind (propose-Runs random key value) λ success. Runs-ended (put_response success)

  pub get-Runs : (key : Text) → Runs (Programs.get key) (Service.get sql key)
  unfolding Programs.get Service.get perform
  get-Runs key = Runs-call (get_value key) λ value. Runs-ended (get_response value)
