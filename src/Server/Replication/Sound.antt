-- ===== src/Server/Replication/Sound.antt =====
-- What the methods of a node leave in its storage, on a connection on which no statement fails.
use scalable_key_value_store.Prelude.{
  ℕ, zero, suc, ◌-◌, ◌≡◌, refl, ap, Bool, true, false, Option, none, some, List, [], ◌∷◌, ◌++◌,
  length, take, drop, Bool-cases, inl, inr,
}
use scalable_key_value_store.Server.Java.{Exec, pure, non_null, null_pointer_exception}
use scalable_key_value_store.Server.Java.Laws.{
  Ends, Ends-pure, Ends-mono, Ends-gets, Keeps, Keeps-bind, Keeps-pure, Keeps-modify, keeps_rules,
}
use scalable_key_value_store.Server.Java.Leaves.{
  Leaves, Leaves-Ends, Leaves-throw, Leaves-bind, Leaves-Keeps, Keeps-Leaves,
}
use scalable_key_value_store.Server.Long.{signed_lt}
use scalable_key_value_store.Server.Sql.{Text, LogEntry, Engine}
use scalable_key_value_store.Server.Raft.{
  NodeInfo, Dict, get_or_default, RaftNode, on_storage, term_of,
}
use scalable_key_value_store.Server.Storage
use scalable_key_value_store.Server.Storage.{term_or_zero}
use scalable_key_value_store.Server.Storage.Sqlite.{Tables, IsSqlite}
use scalable_key_value_store.Server.Storage.Refines.{
  Store, encode, append_log_entry-Ends, get_log_entry-Ends, get_last_log_index-Ends,
  get_commit_index-Ends, get_log_entries_from-Ends,
}
use scalable_key_value_store.Server.Replication.{
  term_at, previous_term, append_entries, note_match, step_back, after_append, send_append_entries,
  send_all, update_commit_index, replicate_entry, append_proposal, propose_entry,
}
use scalable_key_value_store.Server.Replication.Spec.{
  IsConsistent, is_match, appended, KeepsCommitted, appended-IsConsistent, follow-IsConsistent,
  grown-IsConsistent,
}
use scalable_key_value_store.Server.Replication.Frame.{IsAt, IsAt-self, on_storage-Ends}
use scalable_key_value_store.Server.Replication.Append.{
  append_entries-accepts, append_entries-rejects, append_entries_stale,
}
use scalable_key_value_store.Server.Replication.Quorum.{update-Ends}
use scalable_key_value_store.Server.Replication.Sending.{appended_self}

module _ {D : Type 0} (sql : Engine D) (tables : D → Tables) (laws : IsSqlite sql tables) where
  -- The storage of the node holds a log without gaps, its counters are in order, and the table of
  -- keys is what the applied entries write.
  pub record IsSound (s : RaftNode D) : Type 0 where
    pub store : Store
    pub held : tables s.storage ≡ encode store
    pub consistent : IsConsistent store

  IsSound-at : (s u : RaftNode D) (a : Store) → IsAt tables s a u → IsConsistent a → IsSound u
  IsSound-at s u a at c = record { store = a; held = at.held; consistent = c }

  -- A method of the storage that reads.
  pub reads-IsSound :
      {A : Type 0} {R : Store → A → Type 0} (m : Exec D A)
      → ((a : Store) (d : D)
          → tables d ≡ encode a
          → Ends m d (λ r t. R a r × (tables t ≡ encode a)))
      → Keeps IsSound (on_storage m)
  reads-IsSound m e = Keeps-Leaves λ s h. Leaves-Ends (
      Ends-mono
        (on_storage-Ends tables m s s h.store h.store (IsAt-self tables s h.store h.held)
          (e h.store s.storage h.held))
        λ r u q. IsSound-at s u h.store q.1 h.consistent)

  pub update-IsSound : Keeps IsSound (update_commit_index sql)
  update-IsSound = Keeps-Leaves λ s h. Leaves-Ends (
      Ends-mono
        (update-Ends sql tables laws s s h.store (IsAt-self tables s h.store h.held) h.consistent)
        λ r u z. IsSound-at s u z.0 z.1 z.2)

  -- An RPC leaves the storage sound, if its entries leave the committed ones in place.
  pub append_entries-Leaves :
      (delay : ℕ) (id : Text) (term prev prev_term : ℕ) (es : List LogEntry) (leader_commit : ℕ)
      (s : RaftNode D) (a : Store)
      → tables s.storage ≡ encode a
      → IsConsistent a
      → KeepsCommitted a prev es
      → Leaves
          (append_entries sql delay id term prev prev_term es leader_commit)
          s
          (λ r u. IsSound u)
          IsSound
  append_entries-Leaves delay id term prev prev_term es leader_commit s a held c keep =
      elim (Bool-cases (signed_lt term (term_of s))) [
        | inl stale ↦ Leaves-Ends (record {
          result = false;
          state = s;
          runs = append_entries_stale sql delay id term prev prev_term es leader_commit s stale;
          holds = record { store = a; held = held; consistent = c };
        })
        | inr fresh ↦ elim (Bool-cases (is_match a.log prev prev_term)) [
          | inl match ↦ Leaves-Ends (
              Ends-mono
                (append_entries-accepts sql tables laws delay id term prev prev_term es
                  leader_commit s a held c fresh match keep)
                λ r u q. IsSound-at _ u _ q.1 (
                  follow-IsConsistent leader_commit (appended a prev es)
                    (appended-IsConsistent a prev es c keep)))
          | inr differ ↦ Leaves-Ends (
              Ends-mono
                (append_entries-rejects sql tables laws delay id term prev prev_term es
                  leader_commit s a held fresh differ)
                λ r u q. IsSound-at _ u a q.1 c)
        ]
      ]

  -- The read of a term throws if the log has no such entry, and leaves the storage as it is.
  previous_term-Leaves :
      (k : ℕ) (s t : RaftNode D) (a : Store)
      → IsAt tables s a t
      → IsConsistent a
      → Leaves (previous_term sql k) t (λ n u. IsAt tables s a u) IsSound
  unfolding previous_term term_at non_null pure
  previous_term-Leaves zero s t a at c = Leaves-Ends (Ends-pure 0 t at)
  previous_term-Leaves (suc k) s t a at c =
      Leaves-bind _ _ t
        (Leaves-Ends (
          on_storage-Ends tables _ s t a a at
            (get_log_entry-Ends sql tables laws a t.storage at.held k)))
        λ o u q. Leaves-bind _ _ u (entry o u q.1) λ e v r. Leaves-Ends (Ends-pure e.term v r)
    where
      entry :
          (o : Option LogEntry) (u : RaftNode D)
          → IsAt tables s a u
          → Leaves (non_null o) u (λ e v. IsAt tables s a v) IsSound
      entry none u ut = Leaves-throw null_pointer_exception u (IsSound-at s u a ut c)
      entry (some e) u ut = Leaves-Ends (Ends-pure e u ut)

  last_index-IsSound : Keeps IsSound (on_storage (Storage.get_last_log_index sql))
  last_index-IsSound =
      reads-IsSound {R = λ a n. n ≡ length a.log} _ (get_last_log_index-Ends sql tables laws)

  after-IsSound : (id : Text) (b : Bool) → Keeps IsSound (after_append sql id b)
  unfolding after_append note_match step_back
  after-IsSound id true = Keeps-bind _ _ last_index-IsSound λ next_last.
      Keeps-bind _ _ last_index-IsSound λ match_last.
        Keeps-bind _ _
          (Keeps-modify _
            (λ s h. record { store = h.store; held = h.held; consistent = h.consistent }))
          λ _. update-IsSound
  after-IsSound id false =
      Keeps-modify _ (λ s h. record { store = h.store; held = h.held; consistent = h.consistent })

  pub send-IsSound :
      (delay : ℕ) (peer : NodeInfo) → Keeps IsSound (send_append_entries sql delay peer)
  unfolding send_append_entries
  send-IsSound delay peer = Keeps-Leaves λ s h.
      let a : Store = h.store in
      let k : ℕ = get_or_default peer.id 1 s.next_index in
      Leaves-bind _ _ s
        (Leaves-Ends (
          Ends-gets {Q = λ n t. (n ≡ k) × (t ≡ s)} (λ t. get_or_default peer.id 1 t.next_index) s
            (refl, refl)))
        λ n t q.
          rw (q.0, q.1)
            (Leaves-bind _ _ s
              (Leaves-Ends (
                on_storage-Ends tables _ s s a a (IsAt-self tables s a h.held)
                  (get_last_log_index-Ends sql tables laws a s.storage h.held)))
              λ last u r. rw r.0 (
                Leaves-bind _ _ u
                  (Leaves-Ends (
                    on_storage-Ends tables _ s u a a r.1
                      (get_log_entries_from-Ends sql tables laws a u.storage r.1.held k)))
                  λ es v z. rw z.0 (
                    Leaves-bind _ _ v (previous_term-Leaves (k - 1) s v a z.1 h.consistent)
                      λ term w y.
                        Leaves-bind _ _ w
                          (Leaves-Ends (Ends-gets {Q = λ m x. x ≡ w} term_of w refl))
                          λ m x p. rw p (
                            Leaves-bind _ _ w
                              (Leaves-Ends (
                                on_storage-Ends tables _ s w a a y
                                  (get_commit_index-Ends sql tables laws a w.storage y.held)))
                              λ commit f g.
                                Leaves-bind _ _ f
                                  (append_entries-Leaves delay peer.id m (k - 1) term
                                    (drop (k - 1) a.log) commit f a g.1.held h.consistent
                                    (ap (λ (b : Store). take a.commit_index b.log)
                                      (appended_self a (k - 1))))
                                  λ b o sound. Leaves-Keeps (after-IsSound peer.id b) sound))))

  send_all-IsSound :
      (random : Text → ℕ) (peers : Dict NodeInfo) → Keeps IsSound (send_all sql random peers)
  unfolding send_all
  send_all-IsSound random [] = Keeps-pure tt
  send_all-IsSound random ((id, peer) ∷ peers) =
      Keeps-bind _ _ (send-IsSound (random id) peer) λ _. send_all-IsSound random peers

  append-IsSound : (e : LogEntry) → Keeps IsSound (on_storage (Storage.append_log_entry sql e))
  append-IsSound e = Keeps-Leaves λ s h.
      let a : Store = h.store in
      let b : Store = record a { log = a.log ++ e ∷ [] } in
      Leaves-Ends (
        Ends-mono
          (on_storage-Ends tables _ s s a b (IsAt-self tables s a h.held)
            (append_log_entry-Ends sql tables laws a s.storage h.held e))
          λ n u q. IsSound-at s u b q.1 (grown-IsConsistent a e h.consistent))

  pub propose-IsSound :
      (random : Text → ℕ) (key value : Text) → Keeps IsSound (propose_entry sql random key value)
  unfolding propose_entry append_proposal replicate_entry
  propose-IsSound random key value =
      search (keeps_rules, append-IsSound, last_index-IsSound, send_all-IsSound, update-IsSound)
        depth 14
