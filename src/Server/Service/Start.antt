-- ===== src/Server/Service/Start.antt =====
-- A server without peers, from its start, on a connection on which no statement fails.
use scalable_key_value_store.Prelude.{ℕ, ◌≡◌, refl, Bool, true, false, [], ◌∷◌}
use scalable_key_value_store.Server.Java.{Exec, ◌>>=◌, ◌>>◌}
use scalable_key_value_store.Server.Java.Laws.{Ends, Ends-bind, Ends-pure, Ends-gets, Ends-modify}
use scalable_key_value_store.Server.Sql.{Text, Engine}
use scalable_key_value_store.Server.RaftState
use scalable_key_value_store.Server.RaftState.{is_leader}
use scalable_key_value_store.Server.Raft.{Dict, NodeInfo, RaftNode, new_node, add_peers, on_storage}
use scalable_key_value_store.Server.Storage.Sqlite.{Tables, IsSqlite}
use scalable_key_value_store.Server.Storage.Refines.{
  get_last_log_term-Ends, Store, encode, get_last_log_index-Ends,
}
use scalable_key_value_store.Server.Replication.Spec.{IsConsistent}
use scalable_key_value_store.Server.Election.{
  count_votes, stand, start_election, become_leader, take_lead, lead_peers, decide, tally,
  leader_election_task,
}
use scalable_key_value_store.Server.Service.{get, put}
use scalable_key_value_store.Server.Service.Alone.{put_then_get-Ends}

module _ {D : Type 0} (sql : Engine D) (tables : D → Tables) (laws : IsSqlite sql tables)
    (a : Store) where
  -- A node without peers that holds the store, as a leader or not.
  record IsAlone (leads : Bool) (s : RaftNode D) : Type 0 where
    held : tables s.storage ≡ encode a
    no_peers : s.peers ≡ []
    role : is_leader s.state ≡ leads

  module _ {A : Type 0} where
    stored-Ends :
        {R : A → Type 0} {leads : Bool} (m : Exec D A) (s : RaftNode D)
        → IsAlone leads s
        → Ends m s.storage (λ r d. R r × (tables d ≡ encode a))
        → Ends (on_storage m) s (λ _ u. IsAlone leads u)
    unfolding on_storage
    stored-Ends m s h e = record {
      result = e.result;
      state = record s { storage = e.state };
      runs = rw e.runs;
      holds = record { held = e.holds.1; no_peers = h.no_peers; role = h.role };
    }

  task-Ends :
      (s : RaftNode D)
      → IsAlone false s
      → Ends (leader_election_task sql) s (λ _ u. IsAlone false u)
  unfolding leader_election_task start_election stand RaftState.become_candidate is_leader
  task-Ends s h =
      Ends-bind _ _ s
        (Ends-gets {Q = λ b t. (b ≡ false) × (t ≡ s)} (λ t. is_leader t.state) s (h.role, refl))
        λ b t q.
          rw (q.0, q.1)
            (Ends-bind _ _ s
              (Ends-bind _ _ s
                (Ends-modify {Q = λ _ u. IsAlone false u} stand s
                  (record { held = h.held; no_peers = h.no_peers; role = refl }))
                λ _ u k.
                  Ends-bind _ _ u
                    (stored-Ends _ u k (get_last_log_index-Ends sql tables laws a u.storage k.held))
                    λ index v l.
                      Ends-bind _ _ v
                        (stored-Ends _ v l
                          (get_last_log_term-Ends sql tables laws a v.storage l.held))
                        λ term w m. Ends-pure (index, term) w m)
              λ _ u k. Ends-pure tt u k)

  lead_none :
      (last : ℕ) (peers : Dict NodeInfo) (s : RaftNode D)
      → peers ≡ []
      → IsAlone true s
      → IsAlone true (lead_peers last peers s)
  unfolding lead_peers
  lead_none last [] s e h = h
  lead_none last (peer ∷ peers) s e h = absurd (cc)

  tally-Ends : (s : RaftNode D) → IsAlone false s → Ends (tally sql) s (λ _ u. IsAlone true u)
  unfolding tally count_votes decide become_leader take_lead RaftState.become_leader is_leader
  tally-Ends s h =
      Ends-bind _ _ s
        (Ends-gets {Q = λ ps t. (ps ≡ []) × (t ≡ s)} (λ t. t.peers) s (h.no_peers, refl))
        λ ps t q.
          rw (q.0, q.1)
            (Ends-bind _ _ s (Ends-pure {Q = λ n t. (n ≡ 0) × (t ≡ s)} 0 s (refl, refl)) λ n t r.
              rw (r.0, r.1)
                (Ends-bind _ _ s
                  (Ends-gets {Q = λ ps t. (ps ≡ []) × (t ≡ s)} (λ t. t.peers) s (h.no_peers, refl))
                  λ ps t z.
                    rw (z.0, z.1)
                      (Ends-bind _ _ s
                        (Ends-modify {Q = λ _ u. IsAlone true u} take_lead s
                          (record { held = h.held; no_peers = h.no_peers; role = refl }))
                        λ _ u k.
                          Ends-bind _ _ u
                            (stored-Ends _ u k
                              (get_last_log_index-Ends sql tables laws a u.storage k.held))
                            λ last v l. Ends-modify _ v (lead_none last v.peers v l.no_peers l))))

  -- A server that starts without peers becomes the leader by its first election, takes a PUT, and a
  -- GET of the key then finds the value. No statement fails on the connection, the counters of the
  -- storage are in order, and its table of keys is what its applied entries write.
  pub start_serves-Ends :
      (node_id : Text) (d : D) (random : Text → ℕ) (key value : Text)
      → tables d ≡ encode a
      → IsConsistent a
      → Ends
          ((leader_election_task sql >> tally sql)
            >> (put sql random key value >>= λ _. get sql key))
          (new_node node_id [] d)
          (λ r u. r ≡ record { value = value; found = true })
  unfolding new_node add_peers is_leader
  start_serves-Ends node_id d random key value held c =
      Ends-bind _ _ _
        (Ends-bind _ _ _ (task-Ends _ (record { held = held; no_peers = refl; role = refl }))
          λ _ t h. tally-Ends t h)
        λ _ u h. put_then_get-Ends sql tables laws random key value u a h.held h.role h.no_peers c
