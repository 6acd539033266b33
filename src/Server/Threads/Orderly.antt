-- ===== src/Server/Threads/Orderly.antt =====
-- What each access keeps of a node without peers, whatever other threads have done.
use scalable_key_value_store.Prelude.{
  ◌≤◌, ◌≡◌, refl, ap, ◌∙◌, Bool, true, false, if◌then◌else◌, Option, none, some, [], ◌∷◌, ◌++◌,
  length, arith, length-append,
}
use scalable_key_value_store.Server.Java.{Exec, gets}
use scalable_key_value_store.Server.Java.Laws.{Ends, Ends-mono, Ends-gets}
use scalable_key_value_store.Server.Sql.{Text, LogEntry, Engine, text_eq, text_eq→eq}
use scalable_key_value_store.Server.Storage.Sqlite.{Tables, IsSqlite, set_value}
use scalable_key_value_store.Server.Storage.Refines.{Store, encode}
use scalable_key_value_store.Server.Raft.{RaftNode, on_storage}
use scalable_key_value_store.Server.Replication.Frame.{
  IsAt, IsAt-self, on_storage-Ends, on_storage_unit-Ends,
}
use scalable_key_value_store.Server.Threads.Calls.{Call, Answer}
use scalable_key_value_store.Server.Threads.Guard.{
  Log, Extends, Extends-refl, Extends-IsWritten, IsWritten, IsTold,
}

-- Both counters stay within the log, and the table of keys has only values that the log writes to
-- their keys.
pub record IsOrdered (a : Store) : Type 0 where
  pub committed : a.commit_index ≤ length a.log
  pub applied : a.last_applied ≤ length a.log
  pub written : (k v : Text) → a.key_values k ≡ some v → IsWritten k v a.log

module _ {D : Type 0} (tables : D → Tables) where
  -- A node without peers, and what its storage holds.
  pub record IsOrderly (s : RaftNode D) (a : Store) : Type 0 where
    pub held : tables s.storage ≡ encode a
    pub no_peers : s.peers ≡ []
    pub ordered : IsOrdered a

  pub at-IsOrderly :
      (s u : RaftNode D) (a b : Store)
      → IsOrderly s a
      → IsAt tables s b u
      → IsOrdered b
      → IsOrderly u b
  at-IsOrderly s u a b h at o = record {
    held = at.held;
    no_peers = ap (λ (v : RaftNode D). v.peers) at.same ∙ h.no_peers;
    ordered = o;
  }

  -- What is known of the node and the answer behind an access.
  pub record IsDone (c : Call) (a : Store) (x : Answer c) (u : RaftNode D) : Type 0 where
    pub store : Store
    pub orderly : IsOrderly u store
    pub grown : Extends a.log store.log
    pub told : IsTold c x store.log

pub appended-IsOrdered :
    (a : Store) (e : LogEntry) → IsOrdered a → IsOrdered (record a { log = a.log ++ e ∷ [] })
appended-IsOrdered a e o = record {
  committed = omega (arith, o.committed, length-append a.log (e ∷ []));
  applied = omega (arith, o.applied, length-append a.log (e ∷ []));
  written = λ k v h. Extends-IsWritten (record { more = e ∷ []; joined = refl }) (o.written k v h);
}

value_of : Text → Option Text → Text
value_of v none = v
value_of v (some w) = w

-- A table with one more value that the log writes.
pub set_value-IsWritten :
    (k v : Text) (l : Log) (values : Text → Option Text)
    → IsWritten k v l
    → ((j w : Text) → values j ≡ some w → IsWritten j w l)
    → (j w : Text) → set_value k v values j ≡ some w
    → IsWritten j w l
unfolding value_of
set_value-IsWritten k v l values new old j w h = choose (text_eq k j) refl h
  where
    choose :
        (same : Bool)
        → text_eq k j ≡ same
        → (if same then some v else values j) ≡ some w
        → IsWritten j w l
    choose true e q = record {
      place = new.place;
      entry = new.entry;
      stands = new.stands;
      of_key = new.of_key ∙ text_eq→eq k j e;
      of_value = new.of_value ∙ ap (value_of v) q;
    }
    choose false e q = old j w q

pub set_value-IsOrdered :
    (k v : Text) (a : Store)
    → IsWritten k v a.log
    → IsOrdered a
    → IsOrdered (record a { key_values = set_value k v a.key_values })
set_value-IsOrdered k v a new o = record {
  committed = o.committed;
  applied = o.applied;
  written = set_value-IsWritten k v a.log a.key_values new o.written;
}

module _ {D : Type 0} (sql : Engine D) (tables : D → Tables) (laws : IsSqlite sql tables)
    (s : RaftNode D) (a : Store) (h : IsOrderly tables s a) where
  abbrev pub at : IsAt tables s a s
  at = IsAt-self tables s a h.held

  -- an access that leaves the node as it is
  pub reads-IsDone :
      (c : Call) (R : Answer c → Type 0) (m : Exec D (Answer c))
      → Ends m s.storage (λ x d. R x × (tables d ≡ encode a))
      → ((x : Answer c) → R x → IsTold c x a.log)
      → Ends (on_storage m) s (IsDone tables c a)
  reads-IsDone c R m e told = Ends-mono (on_storage-Ends tables m s s a a at e) λ x u q. record {
    store = a;
    orderly = at-IsOrderly tables s u a a h q.1 h.ordered;
    grown = Extends-refl a.log;
    told = told x q.0;
  }

  pub gets-IsDone :
      (c : Call) (f : RaftNode D → Answer c)
      → IsTold c (f s) a.log
      → Ends (gets f) s (IsDone tables c a)
  gets-IsDone c f told =
      Ends-gets f s (record { store = a; orderly = h; grown = Extends-refl a.log; told = told })

  -- an access that writes the storage
  pub writes-IsDone :
      (c : Call) (b : Store) (m : Exec D (Answer c))
      → Ends m s.storage (λ x d. tables d ≡ encode b)
      → IsOrdered b
      → Extends a.log b.log
      → ((x : Answer c) → IsTold c x b.log)
      → Ends (on_storage m) s (IsDone tables c a)
  writes-IsDone c b m e o grown told =
      Ends-mono (on_storage_unit-Ends tables m s s a b at e) λ x u q. record {
        store = b;
        orderly = at-IsOrderly tables s u a b h q o;
        grown = grown;
        told = told x;
      }

  -- a write of a field that is neither the storage nor the peers
  pub kept-IsOrderly :
      (t : RaftNode D) → t.storage ≡ s.storage → t.peers ≡ s.peers → IsOrderly tables t a
  kept-IsOrderly t same_storage same_peers = record {
    held = ap tables same_storage ∙ h.held;
    no_peers = same_peers ∙ h.no_peers;
    ordered = h.ordered;
  }
