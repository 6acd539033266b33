-- ===== src/Server/Service/Alone.antt =====
-- A server without peers, on a connection on which no statement fails.
use scalable_key_value_store.Prelude.{
  subst, ℕ, suc, ◌≡◌, refl, ap, sym, ◌∙◌, true, Option, none, some, List, [], ◌∷◌, ◌++◌, arith,
  length, get_elem?, length-append, take-ge,
}
use scalable_key_value_store.Server.Java.{◌>>=◌}
use scalable_key_value_store.Server.Java.Laws.{Ends, Ends-bind, Ends-pure, Ends-mono, Ends-gets}
use scalable_key_value_store.Server.Sql.{text_eq_refl, Text, LogEntry, Engine}
use scalable_key_value_store.Server.RaftState.{is_leader}
use scalable_key_value_store.Server.Raft.{RaftNode, term_of}
use scalable_key_value_store.Server.Storage.Sqlite.{Tables, IsSqlite}
use scalable_key_value_store.Server.Storage.Refines.{
  Store, encode, append_log_entry-Ends, get_last_log_index-Ends, get-Ends,
}
use scalable_key_value_store.Server.Replication.{
  send_all, replicate_entry, append_proposal, propose_entry,
}
use scalable_key_value_store.Server.Replication.Spec.{
  grown-IsConsistent, IsConsistent, catch_up, apply_entries, empty_values, apply_entries-append,
}
use scalable_key_value_store.Server.Replication.Frame.{IsAt, IsAt-self, on_storage-Ends}
use scalable_key_value_store.Server.Replication.Commit.{commit_all, update-Ends}
use scalable_key_value_store.Server.Service.{get, put, get_response, put_response}

abbrev pub proposal : {D : Type 0} → RaftNode D → Text → Text → LogEntry
proposal s key value = record { term = term_of s; key = key; value = value }

-- A store with one more entry, committed and applied with all in front of it.
abbrev pub committed : Store → LogEntry → Store
committed a e = catch_up (record a { log = a.log ++ e ∷ []; commit_index = suc (length a.log) })

-- the entry at the end of a log
pub last_elem : (l : List LogEntry) (e : LogEntry) → get_elem? (l ++ e ∷ []) (length l) ≡ some e
last_elem [] e = refl
last_elem (x ∷ l) e = last_elem l e

abbrev term_or : Option LogEntry → ℕ
term_or none = 0
term_or (some e) = e.term

module _ {D : Type 0} (sql : Engine D) (tables : D → Tables) (laws : IsSqlite sql tables) where
  module _ (random : Text → ℕ) (key value : Text) (s : RaftNode D) (a : Store)
      (held : tables s.storage ≡ encode a) (leads : is_leader s.state ≡ true) (alone : s.peers ≡ [])
      (c : IsConsistent a) where
    grown : Store
    grown = record a { log = a.log ++ proposal s key value ∷ [] }

    appends-Ends : Ends (append_proposal sql key value) s (λ n u. IsAt tables s grown u)
    unfolding append_proposal grown
    appends-Ends =
        Ends-bind _ _ s (Ends-gets {Q = λ m u. (m ≡ term_of s) × (u ≡ s)} term_of s (refl, refl))
          λ m u q.
            rw (q.0, q.1)
              (Ends-bind _ _ s
                (on_storage-Ends tables _ s s a grown (IsAt-self tables s a held)
                  (append_log_entry-Ends sql tables laws a s.storage held (proposal s key value)))
                λ n v r.
                  Ends-mono
                    (on_storage-Ends tables _ s v grown grown r.1
                      (get_last_log_index-Ends sql tables laws grown v.storage r.1.held))
                    λ _ w z. z.1)

    whole : length grown.log ≡ suc (length a.log)
    unfolding grown
    whole = omega (arith, length-append a.log (proposal s key value ∷ []))

    proposed_term :
        (e : LogEntry) → get_elem? grown.log (length a.log) ≡ some e → e.term ≡ term_of s
    unfolding grown
    proposed_term e h = sym (ap term_or (sym (last_elem a.log (proposal s key value)) ∙ h))

    replicates-Ends :
        (index : ℕ) (t : RaftNode D)
        → IsAt tables s grown t
        → Ends
            (replicate_entry sql random index)
            t
            (λ r u. (r ≡ true) × IsAt tables s (committed a (proposal s key value)) u)
    unfolding replicate_entry send_all grown
    replicates-Ends index t at =
        Ends-bind _ _ t
          (Ends-gets {Q = λ ps u. (ps ≡ []) × (u ≡ t)} (λ u. u.peers) t
            (ap (λ (v : RaftNode D). v.peers) at.same ∙ alone, refl))
          λ ps u q.
            rw (q.0, q.1)
              (Ends-bind _ _ t (Ends-pure {Q = λ _ u. u ≡ t} tt t refl) λ _ u e. rw e (
                Ends-bind _ _ t
                  (update-Ends sql tables laws s alone t grown (length a.log) at
                    (grown-IsConsistent a (proposal s key value) c) c.committed whole proposed_term)
                  λ _ w z. Ends-pure true w (
                    refl,
                    subst (λ n. IsAt tables s (commit_all sql tables laws grown n) w) whole z,
                  )))

    proposes-Ends :
        Ends
          (propose_entry sql random key value)
          s
          (λ r u. (r ≡ true) × IsAt tables s (committed a (proposal s key value)) u)
    unfolding propose_entry
    proposes-Ends =
        Ends-bind _ _ s
          (Ends-gets {Q = λ b u. (b ≡ true) × (u ≡ s)} (λ u. is_leader u.state) s (leads, refl))
          λ b u q. rw (q.0, q.1) (Ends-bind _ _ s appends-Ends λ n v at. replicates-Ends n v at)

    -- A PUT at a leader without peers is answered with a success once its entry is in the log,
    -- committed and applied, with all entries in front of it, also those that were not committed
    -- before. No statement fails on the connection, the counters are in order, and the dictionary
    -- is what the applied entries write.
    pub put_alone-Ends :
        Ends
          (put sql random key value)
          s
          (λ r u. (r ≡ put_response true) × IsAt tables s (committed a (proposal s key value)) u)
    unfolding put
    put_alone-Ends = Ends-bind _ _ s proposes-Ends λ b u q. Ends-pure _ u (ap put_response q.0, q.1)

    -- A GET of a key right behind a PUT of it, at a leader without peers, finds the value that was
    -- put, if its counters are in order, its dictionary is what its applied entries write, and no
    -- statement fails on the connection.
    pub put_then_get-Ends :
        Ends
          (put sql random key value >>= λ _. get sql key)
          s
          (λ r u. r ≡ record { value = value; found = true })
    unfolding get apply_entries
    put_then_get-Ends = Ends-bind _ _ s put_alone-Ends λ _ u q.
        let b : Store = committed a (proposal s key value) in
        Ends-bind _ _ u
          (on_storage-Ends tables _ s u b b q.1 (get-Ends sql tables laws b u.storage q.1.held key))
          λ o v r. Ends-pure _ v (ap get_response (r.0 ∙ written))
      where
        written : (committed a (proposal s key value)).key_values key ≡ some value
        written =
            ap (λ l. apply_entries l empty_values key)
              (take-ge (suc (length a.log)) (a.log ++ proposal s key value ∷ [])
                (omega (arith, length-append a.log (proposal s key value ∷ []))))
            ∙ ap (λ f. f key) (apply_entries-append a.log (proposal s key value ∷ []) empty_values)
            ∙ rw (text_eq_refl key) refl
