-- ===== src/Server/Config/Peers.antt =====
-- What a configuration makes of a server.
use scalable_key_value_store.Prelude.{
  ℕ, ◌≡◌, refl, ap, sym, ◌∙◌, Bool, true, false, ◌&&◌, some, List, [], ◌∷◌, ◌==◌, Bool-cases, inl,
  inr,
}
use scalable_key_value_store.Server.Java.{Outcome, returns, throws, pure, ◌>>=◌}
use scalable_key_value_store.Server.Sql.{Text, Engine}
use scalable_key_value_store.Server.Raft.{RaftNode, new_node}
use scalable_key_value_store.Server.Replication.{propose_entry}
use scalable_key_value_store.Server.Election.NoLeader.{is_empty}
use scalable_key_value_store.Server.Schedule.{Event, run}
use scalable_key_value_store.Server.Schedule.Leadership.{never_leads}
use scalable_key_value_store.Server.Service
use scalable_key_value_store.Server.Service.{PutResponse, put_response}
use scalable_key_value_store.Server.Config.{
  comma, prepend, pieces, keep_piece, trim, split, Properties, ServerConfig, new_config,
  config_with, configured_node,
}

abbrev pub only_commas : Text → Bool
only_commas [] = true
only_commas (c ∷ s) = (c == comma) && only_commas s

-- one separator at least, and nothing else
abbrev pub lists_no_peer : Text → Bool
lists_no_peer [] = false
lists_no_peer (c ∷ s) = only_commas (c ∷ s)

prepend-trim : (c : ℕ) (ps : List Text) → is_empty (trim (prepend c ps)) ≡ false
unfolding prepend trim keep_piece
prepend-trim c [] = refl
prepend-trim c (p ∷ ps) = refl

keep_empty : (ps : List Text) → is_empty (keep_piece [] ps) ≡ is_empty ps
unfolding keep_piece
keep_empty [] = refl
keep_empty (p ∷ ps) = refl

trim-pieces : (s : Text) → is_empty (trim (pieces comma s)) ≡ only_commas s
unfolding pieces trim keep_piece
trim-pieces [] = refl
trim-pieces (c ∷ s) = elim (Bool-cases (c == comma)) [
  | inl sep ↦ rw sep (keep_empty (trim (pieces comma s)) ∙ trim-pieces s)
  | inr other ↦ rw other (prepend-trim c (pieces comma s))
]

-- The list of peers of a property is empty only if the property is made of commas, one at least.
-- So an empty property names one peer, the empty text.
split-is_empty : (s : Text) → is_empty (split comma s) ≡ lists_no_peer s
unfolding split
split-is_empty [] = refl
split-is_empty (c ∷ s) = trim-pieces (c ∷ s)

abbrev peers_of : Outcome ServerConfig → List Text
peers_of (returns config) = config.peers
peers_of (throws e) = []

module _ {D : Type 0} (sql : Engine D) where
  refuses :
      (node_id : Text) (ids : List Text) (storage : D) (events : List Event) (random : Text → ℕ)
      (key value : Text)
      → is_empty ids ≡ false
      → let s = run sql events (new_node node_id ids storage) in
        propose_entry sql random key value s ≡ (returns false, s)
  refuses node_id [] storage events random key value h = absurd (cc)
  refuses node_id (id ∷ ids) storage events random key value h =
      (never_leads sql node_id id ids storage events random key value).1

  answers_no :
      (random : Text → ℕ) (key value : Text) (s : RaftNode D)
      → propose_entry sql random key value s ≡ (returns false, s)
      → Service.put sql random key value s ≡ (returns (put_response false), s)
  unfolding Service.put ◌>>=◌ pure
  answers_no random key value s h = rw h

  -- A server whose configuration has a list of peers that is not made of commas alone answers
  -- every PUT with a failure and changes nothing for it, whatever happened to its node before and
  -- in whatever order.
  pub configured_refuses :
      (props : Properties) (list node_id : Text) (config : ServerConfig) (storage : D)
      (events : List Event) (random : Text → ℕ) (key value : Text)
      → props.peers ≡ some list
      → lists_no_peer list ≡ false
      → new_config props ≡ returns config
      → let s = run sql events (configured_node node_id config storage) in
        Service.put sql random key value s ≡ (returns (put_response false), s)
  unfolding new_config config_with configured_node
  configured_refuses props list node_id config storage events random key value given h made =
      let peers : config.peers ≡ split comma list =
        ap peers_of (sym made ∙ ap (λ o. config_with o props) given) in
      answers_no random key value _ (
        refuses node_id config.peers storage events random key value
          (ap is_empty peers ∙ split-is_empty list ∙ h))
