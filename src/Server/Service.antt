-- ===== src/Server/Service.antt =====
-- server/KVStoreServiceImpl.java: the two calls of a client that the server answers.
pub mod Alone
pub mod Start
use scalable_key_value_store.Prelude.{ℕ, Bool, true, false, Option, none, some, List, []}
use scalable_key_value_store.Server.Java.{Exec, pure, ◌>>=◌}
use scalable_key_value_store.Server.Sql.{Text, Engine}
use scalable_key_value_store.Server.Storage
use scalable_key_value_store.Server.Raft.{RaftNode, on_storage}
use scalable_key_value_store.Server.Replication.{propose_entry}

-- kv_store.proto
pub record GetResponse : Type 0 where
  pub value : Text
  pub found : Bool

pub record PutResponse : Type 0 where
  pub success : Bool
  pub old_value : Text

abbrev pub get_response : Option Text → GetResponse
get_response none = record { value = []; found = false }
get_response (some value) = record { value = value; found = true }

-- `old_value` is not set
abbrev pub put_response : Bool → PutResponse
put_response success = record { success = success; old_value = [] }

module _ {D : Type 0} (sql : Engine D) where
  unfoldable pub get : Text → Exec (RaftNode D) GetResponse
  get key = do value ← on_storage (Storage.get sql key); pure (get_response value)

  -- The future of the proposal is complete when `proposeEntry` returns it.
  unfoldable pub put : (random : Text → ℕ) → Text → Text → Exec (RaftNode D) PutResponse
  put random key value = do
    success ← propose_entry sql random key value
    pure (put_response success)
