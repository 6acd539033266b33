-- ===== src/Server/Threads/Outcome.antt =====
-- Any number of PUTs, GETs and election tasks in any interleaving, on a server without peers.
use scalable_key_value_store.Prelude.{ℕ, zero, suc, ◌≡◌, sym, subst, true, List, [], ◌∷◌, All}
use scalable_key_value_store.Server.Java.{Outcome}
use scalable_key_value_store.Server.Sql.{Engine}
use scalable_key_value_store.Server.Storage.Sqlite.{Tables, IsSqlite}
use scalable_key_value_store.Server.Storage.Refines.{Store}
use scalable_key_value_store.Server.Raft.{RaftNode}
use scalable_key_value_store.Server.Threads.Calls.{Answer, Prog, ended, failed, call}
use scalable_key_value_store.Server.Threads.Programs.{put, get, leader_election_task}
use scalable_key_value_store.Server.Threads.Perform.{advance, resume}
use scalable_key_value_store.Server.Threads.Pool.{
  Request, put_request, get_request, election_request, Reply, put_reply, get_reply, no_reply,
  program, Thread, Pool, Move, arrives, moves, advance_at, move, interleave,
}
use scalable_key_value_store.Server.Threads.Guard.{
  Log, Extends, Extends-refl, Extends-trans, Extends-IsWritten, IsWritten, IsSafe, IsSafe-bind,
  Extends-IsSafe,
}
use scalable_key_value_store.Server.Threads.Orderly.{IsOrderly}
use scalable_key_value_store.Server.Threads.Access.{perform-IsDone}
use scalable_key_value_store.Server.Threads.Safe.{Any, put-IsSafe, get-IsSafe}
use scalable_key_value_store.Server.Threads.Task.{task-IsSafe}

-- A reply is one to its request. A PUT that succeeds has its entry in the log, and a value that a
-- GET finds is one that the log writes to its key.
abbrev pub IsAnswer : Request → Reply → Log → Type 0
IsAnswer (put_request random key value) (put_reply r) l = r.success ≡ true → IsWritten key value l
IsAnswer (put_request random key value) (get_reply r) l = ⊥
IsAnswer (put_request random key value) no_reply l = ⊥
IsAnswer (get_request key) (put_reply r) l = ⊥
IsAnswer (get_request key) (get_reply r) l = r.found ≡ true → IsWritten key r.value l
IsAnswer (get_request key) no_reply l = ⊥
IsAnswer election_request (put_reply r) l = ⊥
IsAnswer election_request (get_reply r) l = ⊥
IsAnswer election_request no_reply l = Unit

Extends-IsAnswer :
    (r : Request) (x : Reply) (l l' : Log) → Extends l l' → IsAnswer r x l → IsAnswer r x l'
Extends-IsAnswer (put_request random key value) (put_reply r) l l' e h =
    λ ok. Extends-IsWritten e (h ok)
Extends-IsAnswer (put_request random key value) (get_reply r) l l' e h = h
Extends-IsAnswer (put_request random key value) no_reply l l' e h = h
Extends-IsAnswer (get_request key) (put_reply r) l l' e h = h
Extends-IsAnswer (get_request key) (get_reply r) l l' e h = λ ok. Extends-IsWritten e (h ok)
Extends-IsAnswer (get_request key) no_reply l l' e h = h
Extends-IsAnswer election_request (put_reply r) l l' e h = h
Extends-IsAnswer election_request (get_reply r) l l' e h = h
Extends-IsAnswer election_request no_reply l l' e h = h

-- What a thread has left to do is safe, and has not failed.
abbrev pub IsThread : Log → Thread → Type 0
IsThread l (r, p) = IsSafe (IsAnswer r) p l

program-IsThread : (r : Request) (l : Log) → IsThread l (r, program r)
unfolding program
program-IsThread (put_request random key value) l =
    IsSafe-bind _ _ (put random key value) _ l (put-IsSafe random key value l)
      λ a after e h. unfold IsSafe in h
program-IsThread (get_request key) l =
    IsSafe-bind _ _ (get key) _ l (get-IsSafe key l) λ a after e h. unfold IsSafe in h
program-IsThread election_request l =
    IsSafe-bind Any _ leader_election_task _ l (task-IsSafe l) λ a after e h. unfold IsSafe in tt

Extends-IsThread : (l l' : Log) (t : Thread) → Extends l l' → IsThread l t → IsThread l' t
Extends-IsThread l l' (r, p) e h = Extends-IsSafe (IsAnswer r) p (Extends-IsAnswer r) e h

Extends-All :
    (l l' : Log) (ts : List Thread) → Extends l l' → All (IsThread l) ts → All (IsThread l') ts
Extends-All l l' [] e h = tt
Extends-All l l' (t ∷ ts) e (h, rest) = (Extends-IsThread l l' t e h, Extends-All l l' ts e rest)

module _ {D : Type 0} (sql : Engine D) (tables : D → Tables) (laws : IsSqlite sql tables) where
  -- The node is in order over a log that goes on from the given one, and every thread is safe.
  pub record IsCalm (start : Log) (s : RaftNode D) (ts : List Thread) : Type 0 where
    pub store : Store
    pub orderly : IsOrderly tables s store
    pub grown : Extends start store.log
    pub threads : All (IsThread store.log) ts

  -- An access of a safe program is done, and leaves a safe program.
  record Advanced (r : Request) (a : Store) (q : Prog Reply × RaftNode D) : Type 0 where
    store : Store
    orderly : IsOrderly tables q.1 store
    grown : Extends a.log store.log
    safe : IsThread store.log (r, q.0)

  advance-IsSafe :
      (r : Request) (p : Prog Reply) (s : RaftNode D) (a : Store)
      → IsOrderly tables s a
      → IsThread a.log (r, p)
      → Advanced r a (advance sql p s)
  unfolding advance IsSafe
  advance-IsSafe r (ended x) s a o h = record {
    store = a;
    orderly = o;
    grown = Extends-refl a.log;
    safe = h;
  }
  advance-IsSafe r (failed e) s a o h = absurd h
  advance-IsSafe r (call c k) s a o h =
      let (ok, next) = h a.log (Extends-refl a.log) in
      let done = perform-IsDone sql tables laws s a o c ok in
      subst (λ (m : Outcome (Answer c) × RaftNode D). Advanced r a (resume m.0 k, m.1))
        (sym done.runs)
        (record {
          store = done.holds.store;
          orderly = done.holds.orderly;
          grown = done.holds.grown;
          safe = next done.result done.holds.store.log done.holds.grown done.holds.told;
        })

  advance_at-IsCalm :
      (i : ℕ) (ts : List Thread) (s : RaftNode D) (a : Store)
      → IsOrderly tables s a
      → All (IsThread a.log) ts
      → IsCalm a.log (advance_at sql i ts s).1 (advance_at sql i ts s).0
  unfolding advance_at
  advance_at-IsCalm i [] s a o h = record {
    store = a;
    orderly = o;
    grown = Extends-refl a.log;
    threads = tt;
  }
  advance_at-IsCalm zero ((r, p) ∷ ts) s a o (h, hs) =
      let next = advance-IsSafe r p s a o h in
      record {
        store = next.store;
        orderly = next.orderly;
        grown = next.grown;
        threads = (next.safe, Extends-All a.log next.store.log ts next.grown hs);
      }
  advance_at-IsCalm (suc i) (t ∷ ts) s a o (h, hs) =
      let next = advance_at-IsCalm i ts s a o hs in
      record {
        store = next.store;
        orderly = next.orderly;
        grown = next.grown;
        threads = (Extends-IsThread a.log next.store.log t next.grown h, next.threads);
      }

  pub move-IsCalm :
      (start : Log) (m : Move) (w : Pool D)
      → IsCalm start w.node w.threads
      → IsCalm start (move sql m w).node (move sql m w).threads
  unfolding move
  move-IsCalm start (arrives r) w h = record {
    store = h.store;
    orderly = h.orderly;
    grown = h.grown;
    threads = (program-IsThread r h.store.log, h.threads);
  }
  move-IsCalm start (moves i) w h =
      let next = advance_at-IsCalm i w.threads w.node h.store h.orderly h.threads in
      record {
        store = next.store;
        orderly = next.orderly;
        grown = Extends-trans h.grown next.grown;
        threads = next.threads;
      }

  pub interleave-IsCalm :
      (start : Log) (ms : List Move) (w : Pool D)
      → IsCalm start w.node w.threads
      → IsCalm start (interleave sql ms w).node (interleave sql ms w).threads
  unfolding interleave
  interleave-IsCalm start [] w h = h
  interleave-IsCalm start (m ∷ ms) w h =
      interleave-IsCalm start ms (move sql m w) (move-IsCalm start m w h)
