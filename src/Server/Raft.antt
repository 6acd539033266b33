-- ===== src/Server/Raft.antt =====
-- raft/RaftNode.java: the methods of a node, over its fields and the storage that it owns.
-- Each method is one action here; Server.Turns takes the one apart that threads run unlocked.
use scalable_key_value_store.Prelude.{ℕ, ◌+◌, Option, none, some, List, [], ◌∷◌, if◌then◌else◌}
use scalable_key_value_store.Server.Java.{Exec, modify}
use scalable_key_value_store.Server.Sql.{text_eq, Text}
use scalable_key_value_store.Server.RaftState
use scalable_key_value_store.Server.RaftState.{RaftState, Role, leader, is_leader}

pub record NodeInfo : Type 0 where
  pub id : Text
  pub host : Text
  pub port : ℕ

-- A `ConcurrentHashMap` from node names, each name once. The order of the entries is the order
-- of its iteration.
abbrev pub Dict : Type 0 → Type 0
Dict V = List (Text × V)

module _ {V : Type 0} where
  unfoldable pub dict_put : Text → V → Dict V → Dict V
  dict_put k v [] = (k, v) ∷ []
  dict_put k v ((j, w) ∷ m) = if text_eq j k then (k, v) ∷ m else (j, w) ∷ dict_put k v m

  unfoldable pub get_or_default : Text → V → Dict V → V
  get_or_default k v [] = v
  get_or_default k v ((j, w) ∷ m) = if text_eq j k then w else get_or_default k v m

-- `D` is the database connection of the storage.
pub record RaftNode (D : Type 0) : Type 0 where
  pub node_id : Text
  pub peers : Dict NodeInfo
  pub storage : D
  pub state : RaftState
  pub next_index : Dict ℕ
  pub match_index : Dict ℕ
  pub voted_for : Option Text
  -- the delay of the scheduled election, in milliseconds
  pub election_timer : Option ℕ

abbrev pub localhost : Text
localhost = b'l' ∷ b'o' ∷ b'c' ∷ b'a' ∷ b'l' ∷ b'h' ∷ b'o' ∷ b's' ∷ b't' ∷ []

unfoldable pub add_peers : List Text → Dict NodeInfo → Dict NodeInfo
add_peers [] peers = peers
add_peers (id ∷ ids) peers =
    add_peers ids (dict_put id (record { id = id; host = localhost; port = 50051 }) peers)

module _ {D A : Type 0} where
  -- a method of the storage
  unfoldable pub on_storage : Exec D A → Exec (RaftNode D) A
  on_storage m s = let (r, d) = m s.storage in (r, record s { storage = d })

module _ {D : Type 0} where
  -- the constructor, without the channels
  unfoldable pub new_node : Text → List Text → D → RaftNode D
  new_node node_id peer_ids storage = record {
    node_id = node_id;
    peers = add_peers peer_ids [];
    storage = storage;
    state = RaftState.init;
    next_index = [];
    match_index = [];
    voted_for = none;
    election_timer = none;
  }

  abbrev pub role_of : RaftNode D → Role
  role_of s = s.state.current_role

  abbrev pub term_of : RaftNode D → ℕ
  term_of s = s.state.current_term

  -- what an RPC with a newer term does to a node
  unfoldable pub step_down : ℕ → RaftNode D → RaftNode D
  step_down term s = record s {
    state = RaftState.become_follower term (RaftState.set_current_term term s.state);
    voted_for = none;
  }

  -- `delay` is the random part of the timeout, below 150
  unfoldable pub reset_election_timer : ℕ → Exec (RaftNode D) (Unit {0})
  reset_election_timer delay = modify (λ s. record s { election_timer = some (150 + delay) })
