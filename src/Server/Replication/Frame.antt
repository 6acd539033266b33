-- ===== src/Server/Replication/Frame.antt =====
-- Steps of a node that act on its storage alone.
use scalable_key_value_store.Prelude.{◌≡◌, refl, ap}
use scalable_key_value_store.Server.Java.{Exec}
use scalable_key_value_store.Server.Java.Laws.{Ends}
use scalable_key_value_store.Server.Raft.{RaftNode, on_storage}
use scalable_key_value_store.Server.Storage.Sqlite.{Tables}
use scalable_key_value_store.Server.Storage.Refines.{Store, encode}

module _ {D : Type 0} (tables : D → Tables) where
  -- The node `t` is `s` but for its storage, which holds the store.
  pub record IsAt (s : RaftNode D) (a : Store) (t : RaftNode D) : Type 0 where
    pub same : t ≡ record s { storage = t.storage }
    pub held : tables t.storage ≡ encode a

  pub IsAt-self : (s : RaftNode D) (a : Store) → tables s.storage ≡ encode a → IsAt s a s
  IsAt-self s a h = record { same = refl; held = h }

  module _ {A : Type 0} where
    pub on_storage-Ends :
        {R : A → Type 0} (m : Exec D A) (s t : RaftNode D) (a b : Store)
        → IsAt s a t
        → Ends m t.storage (λ r d. R r × (tables d ≡ encode b))
        → Ends (on_storage m) t (λ r u. R r × IsAt s b u)
    unfolding on_storage
    on_storage-Ends m s t a b at e = record {
      result = e.result;
      state = record t { storage = e.state };
      runs = rw e.runs;
      holds = (
        e.holds.0,
        record {
          same = ap (λ (v : RaftNode D). record v { storage = e.state }) at.same;
          held = e.holds.1;
        },
      );
    }

    pub on_storage_unit-Ends :
        (m : Exec D A) (s t : RaftNode D) (a b : Store)
        → IsAt s a t
        → Ends m t.storage (λ r d. tables d ≡ encode b)
        → Ends (on_storage m) t (λ r u. IsAt s b u)
    unfolding on_storage
    on_storage_unit-Ends m s t a b at e = record {
      result = e.result;
      state = record t { storage = e.state };
      runs = rw e.runs;
      holds = record {
        same = ap (λ (v : RaftNode D). record v { storage = e.state }) at.same;
        held = e.holds;
      };
    }
