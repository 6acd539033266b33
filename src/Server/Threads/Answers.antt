-- ===== src/Server/Threads/Answers.antt =====
-- What clients of a server without peers may rely on, however its threads interleave.
use scalable_key_value_store.Prelude.{
  ℕ, zero, suc, ◌≡◌, subst, Option, none, some, List, [], ◌∷◌, All, get_elem?,
}
use scalable_key_value_store.Server.Sql.{Engine}
use scalable_key_value_store.Server.Storage.Sqlite.{Tables, IsSqlite}
use scalable_key_value_store.Server.Storage.Refines.{Store, encode}
use scalable_key_value_store.Server.Raft.{RaftNode}
use scalable_key_value_store.Server.Replication.Spec.{IsConsistent}
use scalable_key_value_store.Server.Threads.Calls.{ended, failed, call}
use scalable_key_value_store.Server.Threads.Pool.{Thread, Pool, Move, interleave}
use scalable_key_value_store.Server.Threads.Guard.{Log, Extends, Extends-refl, IsSafe}
use scalable_key_value_store.Server.Threads.Orderly.{IsOrdered}
use scalable_key_value_store.Server.Threads.Replay.{IsConsistent-IsOrdered}
use scalable_key_value_store.Server.Threads.Outcome.{IsAnswer, IsThread, IsCalm, interleave-IsCalm}

-- A thread has not failed, and if it has ended, then with an answer to its request.
abbrev pub HasAnswer : Log → Thread → Type 0
HasAnswer l (r, ended x) = IsAnswer r x l
HasAnswer l (r, failed e) = ⊥
HasAnswer l (r, call c k) = Unit

IsThread-HasAnswer : (l : Log) (t : Thread) → IsThread l t → HasAnswer l t
unfolding IsSafe
IsThread-HasAnswer l (r, ended x) h = h
IsThread-HasAnswer l (r, failed e) h = h
IsThread-HasAnswer l (r, call c k) h = tt

threads-HasAnswer : (l : Log) (ts : List Thread) → All (IsThread l) ts → All (HasAnswer l) ts
threads-HasAnswer l [] h = tt
threads-HasAnswer l (t ∷ ts) (h, hs) = (IsThread-HasAnswer l t h, threads-HasAnswer l ts hs)

pub IsThread-at :
    (l : Log) (ts : List Thread) (i : ℕ) (t : Thread)
    → All (IsThread l) ts
    → get_elem? ts i ≡ some t
    → IsThread l t
IsThread-at l [] i t h e = absurd (cc)
IsThread-at l (u ∷ ts) zero t (h, hs) e = subst (λ o. from u o) e h
  where
    from : Thread → Option Thread → Type 0
    from v none = IsThread l v
    from v (some w) = IsThread l w
IsThread-at l (u ∷ ts) (suc i) t (h, hs) e = IsThread-at l ts i t hs e

-- no threads yet
abbrev pub idle : {D : Type 0} → RaftNode D → Pool D
idle s = record { node = s; threads = [] }

module _ {D : Type 0} (sql : Engine D) (tables : D → Tables) (laws : IsSqlite sql tables) where
  module _ (s : RaftNode D) (a : Store) (held : tables s.storage ≡ encode a) (alone : s.peers ≡ [])
      (c : IsConsistent a) where
    idle-IsCalm : IsCalm sql tables laws a.log s []
    idle-IsCalm = record {
      store = a;
      orderly = record { held = held; no_peers = alone; ordered = IsConsistent-IsOrdered a c };
      grown = Extends-refl a.log;
      threads = tt;
    }

    pub calm :
        (ms : List Move)
        → IsCalm sql tables laws a.log
            (interleave sql ms (idle s)).node
            (interleave sql ms (idle s)).threads
    calm ms = interleave-IsCalm sql tables laws a.log ms (idle s) idle-IsCalm

    -- However PUTs, GETs and election tasks interleave on a server without peers, no entry of the
    -- log is lost or changed, the counters stay within the log, and the table of keys has only
    -- values that the log writes to their keys. No statement fails on the connection, and at the
    -- start the counters were in order and the table was what the applied entries write.
    pub interleave-IsOrdered :
        (ms : List Move)
        → (b : Store) × (tables (interleave sql ms (idle s)).node.storage ≡ encode b)
          × Extends a.log b.log
          × IsOrdered b
    interleave-IsOrdered ms =
        let k = calm ms in (k.store, k.orderly.held, k.grown, k.orderly.ordered)

    -- In the same circumstances no thread fails, a PUT that was answered with a success has its
    -- entry in the log, and a value that a GET was answered with is one that the log writes to its
    -- key.
    pub interleave-HasAnswer :
        (ms : List Move)
        → (b : Store) × (tables (interleave sql ms (idle s)).node.storage ≡ encode b)
          × All (HasAnswer b.log) (interleave sql ms (idle s)).threads
    interleave-HasAnswer ms =
        let k = calm ms in (k.store, k.orderly.held, threads-HasAnswer k.store.log _ k.threads)
