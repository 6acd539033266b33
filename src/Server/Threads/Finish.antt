-- ===== src/Server/Threads/Finish.antt =====
-- No thread of a server without peers waits for another.
use scalable_key_value_store.Prelude.{
  ℕ, zero, suc, ◌≡◌, ap, ◌∙◌, Option, none, some, List, [], ◌∷◌, get_elem?, replicate,
}
use scalable_key_value_store.Server.Java.{Outcome}
use scalable_key_value_store.Server.Sql.{Engine}
use scalable_key_value_store.Server.Storage.Sqlite.{Tables, IsSqlite}
use scalable_key_value_store.Server.Storage.Refines.{Store, encode}
use scalable_key_value_store.Server.Raft.{RaftNode}
use scalable_key_value_store.Server.Replication.Spec.{IsConsistent}
use scalable_key_value_store.Server.Threads.Calls.{Answer, Prog, ended, failed, call}
use scalable_key_value_store.Server.Threads.Perform.{advance, resume}
use scalable_key_value_store.Server.Threads.Pool.{
  Request, Reply, Thread, Pool, Move, moves, advance_at, move, interleave,
}
use scalable_key_value_store.Server.Threads.Guard.{Log, Extends-refl, IsSafe}
use scalable_key_value_store.Server.Threads.Access.{perform-IsDone}
use scalable_key_value_store.Server.Threads.Outcome.{IsAnswer, IsCalm, move-IsCalm}
use scalable_key_value_store.Server.Threads.Answers.{IsThread-at, idle, calm}

module _ {D : Type 0} (sql : Engine D) where
  advance_at-same :
      (i : ℕ) (ts : List Thread) (s : RaftNode D) (r : Request) (p : Prog Reply)
      → get_elem? ts i ≡ some (r, p)
      → get_elem? (advance_at sql i ts s).0 i ≡ some (r, (advance sql p s).0)
  unfolding advance_at
  advance_at-same i [] s r p h = absurd (cc)
  advance_at-same zero (t ∷ ts) s r p h = ap (advanced s) h
    where
      advanced : RaftNode D → Option Thread → Option Thread
      advanced u none = none
      advanced u (some (q, k)) = some (q, (advance sql k u).0)
  advance_at-same (suc i) (t ∷ ts) s r p h = advance_at-same i ts s r p h

  -- So many accesses of the thread at a place bring it to its end, with a reply that is an answer.
  pub record Finishes (tables : D → Tables) (w : Pool D) (i : ℕ) (r : Request) : Type 0 where
    pub turns : ℕ
    pub reply : Reply
    pub ends :
        get_elem? (interleave sql (replicate turns (moves i)) w).threads i ≡ some (r, ended reply)
    pub store : Store
    pub held : tables (interleave sql (replicate turns (moves i)) w).node.storage ≡ encode store
    pub answers : IsAnswer r reply store.log

  module _ (tables : D → Tables) (laws : IsSqlite sql tables) where
    finish :
        (start : Log) (r : Request) (p : Prog Reply) (w : Pool D) (i : ℕ)
        → get_elem? w.threads i ≡ some (r, p)
        → IsCalm sql tables laws start w.node w.threads
        → Finishes tables w i r
    unfolding IsSafe interleave move advance
    finish start r (ended x) w i there h = record {
      turns = 0;
      reply = x;
      ends = there;
      store = h.store;
      held = h.orderly.held;
      answers = IsThread-at h.store.log w.threads i (r, ended x) h.threads there;
    }
    finish start r (failed e) w i there h =
        absurd (IsThread-at h.store.log w.threads i (r, failed e) h.threads there)
    finish start r (call c k) w i there h =
        let safe = IsThread-at h.store.log w.threads i (r, call c k) h.threads there in
        let done =
          perform-IsDone sql tables laws w.node h.store h.orderly c
            (safe h.store.log (Extends-refl h.store.log)).0 in
        let rest =
          finish start r (k done.result) (move sql (moves i) w) i
            (advance_at-same i w.threads w.node r (call c k) there
              ∙ ap (λ (m : Outcome (Answer c) × RaftNode D). some (r, resume m.0 k)) done.runs)
            (move-IsCalm sql tables laws start (moves i) w h) in
        record {
          turns = suc rest.turns;
          reply = rest.reply;
          ends = rest.ends;
          store = rest.store;
          held = rest.held;
          answers = rest.answers;
        }

    -- However PUTs, GETs and election tasks have interleaved on a server without peers, each of
    -- their threads comes to its end with an answer to its request by accesses of its own alone,
    -- finitely many: none waits for another, and none fails. No statement fails on the connection,
    -- and at the start the counters were in order and the table was what the applied entries write.
    pub thread-Finishes :
        (s : RaftNode D) (a : Store) (ms : List Move) (i : ℕ) (r : Request) (p : Prog Reply)
        → tables s.storage ≡ encode a
        → s.peers ≡ []
        → IsConsistent a
        → get_elem? (interleave sql ms (idle s)).threads i ≡ some (r, p)
        → Finishes tables (interleave sql ms (idle s)) i r
    thread-Finishes s a ms i r p held alone c there =
        finish a.log r p (interleave sql ms (idle s)) i there
          (calm sql tables laws s a held alone c ms)
