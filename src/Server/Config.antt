-- ===== src/Server/Config.antt =====
-- config/ServerConfig.java, and the node that server/KVStoreServer.java makes of it.
pub mod Peers
use scalable_key_value_store.Prelude.{
  ℕ, Bool, true, false, Option, none, some, List, [], ◌∷◌, ◌==◌, if◌then◌else◌,
}
use scalable_key_value_store.Server.Java.{Outcome, returns, throws, null_pointer_exception}
use scalable_key_value_store.Server.Sql.{Text}
use scalable_key_value_store.Server.Raft.{RaftNode, new_node}

-- a property that is missing is null
pub record ServerConfig : Type 0 where
  pub node_id : Option Text
  pub peers : List Text
  pub storage_path : Option Text

-- what `getProperty` gives for the three names that the class reads
pub record Properties : Type 0 where
  pub node_id : Option Text
  pub peers : Option Text
  pub storage_path : Option Text

abbrev pub comma : ℕ
comma = b','

unfoldable pub prepend : ℕ → List Text → List Text
prepend c [] = (c ∷ []) ∷ []
prepend c (piece ∷ pieces) = (c ∷ piece) ∷ pieces

unfoldable pub pieces : ℕ → Text → List Text
pieces sep [] = [] ∷ []
pieces sep (c ∷ s) = let rest = pieces sep s in if c == sep then [] ∷ rest else prepend c rest

unfoldable pub keep_piece : Text → List Text → List Text
keep_piece [] [] = []
keep_piece [] (piece ∷ pieces) = [] ∷ piece ∷ pieces
keep_piece (c ∷ s) pieces = (c ∷ s) ∷ pieces

-- Empty pieces at the end are dropped.
unfoldable pub trim : List Text → List Text
trim [] = []
trim (piece ∷ pieces) = keep_piece piece (trim pieces)

-- `String.split` of a text of one character: a text without a separator, the empty one too, is its own only piece
unfoldable pub split : ℕ → Text → List Text
split sep [] = [] ∷ []
split sep (c ∷ s) = trim (pieces sep (c ∷ s))

-- the constructor, behind `load`
unfoldable pub config_with : Option Text → Properties → Outcome ServerConfig
config_with none props = throws null_pointer_exception
config_with (some peers) props = returns (record {
  node_id = props.node_id;
  peers = split comma peers;
  storage_path = props.storage_path;
})

unfoldable pub new_config : Properties → Outcome ServerConfig
new_config props = config_with props.peers props

module _ {D : Type 0} where
  -- `new RaftNode(config.getNodeId(), config.getPeers(), storage)`, for a node id that is there
  unfoldable pub configured_node : Text → ServerConfig → D → RaftNode D
  configured_node node_id config storage = new_node node_id config.peers storage
