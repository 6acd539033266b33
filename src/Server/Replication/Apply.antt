-- ===== src/Server/Replication/Apply.antt =====
-- `applyCommittedEntries` and the loop of `updateCommitIndex`, on a connection on which no
-- statement fails.
use scalable_key_value_store.Prelude.{
  ℕ, zero, suc, ◌+◌, ◌-◌, ◌≤◌, ◌<◌, ◌≡◌, ap, sym, ◌∙◌, some, ◌++◌, get_elem?, subst, [], ◌∷◌, arith,
  length, take, drop,
}
use scalable_key_value_store.Server.Java.{Exec, non_null, ◌>>=◌}
use scalable_key_value_store.Server.Java.Laws.{Ends, Ends-bind, Ends-pure, Ends-mono, Ends-non_null}
use scalable_key_value_store.Server.Sql.{LogEntry, Engine}
use scalable_key_value_store.Server.Raft.{RaftNode, on_storage}
use scalable_key_value_store.Server.Storage
use scalable_key_value_store.Server.Storage.Sqlite.{Tables, IsSqlite, set_value}
use scalable_key_value_store.Server.Storage.Refines.{
  Store, get_log_entry-Ends, update_key_value-Ends, get_last_applied-Ends, get_commit_index-Ends,
  set_last_applied-Ends,
}
use scalable_key_value_store.Server.Replication.{
  apply_to_state_machine, apply_loop, apply_committed_entries,
}
use scalable_key_value_store.Server.Replication.Spec.{
  apply_entries, IsConsistent, catch_up, drop_step, apply_rest,
}
use scalable_key_value_store.Server.Replication.Frame.{IsAt, on_storage-Ends, on_storage_unit-Ends}

module _ {D : Type 0} (sql : Engine D) (tables : D → Tables) (laws : IsSqlite sql tables) where
  -- what is known behind the read of an entry that the log has
  abbrev pub IsRead : RaftNode D → Store → ℕ → LogEntry → RaftNode D → Type 0
  IsRead s a n e u =
      (get_elem? a.log n ≡ some e)
      × (drop n a.log ≡ e ∷ drop (suc n) a.log)
      × (take (suc n) a.log ≡ take n a.log ++ e ∷ [])
      × IsAt tables s a u

  pub read-Ends :
      {B : Type 0} {R : B → RaftNode D → Type 0} (f : LogEntry → Exec (RaftNode D) B)
      (s t : RaftNode D) (a : Store) (n : ℕ)
      → IsAt tables s a t
      → n < length a.log
      → ((e : LogEntry) (u : RaftNode D) → IsRead s a n e u → Ends (f e) u R)
      → Ends (on_storage (Storage.get_log_entry sql (suc n)) >>= λ o. non_null o >>= f) t R
  read-Ends f s t a n at below k =
      let (e, found, behind, front) = drop_step n a.log below in
      Ends-bind _ _ t
        (on_storage-Ends tables _ s t a a at
          (get_log_entry-Ends sql tables laws a t.storage at.held n))
        λ o u q.
          Ends-bind _ _ u
            (Ends-non_null {Q = IsRead s a n} o e u (q.0 ∙ found) (found, behind, front, q.1))
            λ e' v r. k e' v r

  apply_loop-Ends :
      (rounds n : ℕ) (s t : RaftNode D) (a : Store)
      → IsAt tables s a t
      → n + rounds ≤ length a.log
      → Ends (apply_loop sql rounds n) t (λ m u.
        (m ≡ n + rounds)
        × IsAt tables s
            (record a { key_values = apply_entries (take rounds (drop n a.log)) a.key_values })
            u)
  unfolding apply_loop apply_to_state_machine apply_entries
  apply_loop-Ends zero n s t a at fits = Ends-pure n t (omega arith, at)
  apply_loop-Ends (suc rounds) n s t a at fits = read-Ends _ s t a n at (omega arith) λ e u r.
      let b : Store = record a { key_values = set_value e.key e.value a.key_values } in
      Ends-bind _ _ u
        (on_storage_unit-Ends tables _ s u a b r.3
          (update_key_value-Ends sql tables laws a u.storage r.3.held e.key e.value))
        λ _ v bt. Ends-mono (apply_loop-Ends rounds (suc n) s v b bt (omega arith)) λ m w q. (
          omega (arith, q.0),
          subst
              (λ l.
                IsAt tables s
                  (record a { key_values = apply_entries (take (suc rounds) l) a.key_values }) w)
              (sym r.1) q.1,
        )

  -- All committed entries are applied, in order, and each once, so that the dictionary is what the
  -- committed entries write. No statement fails on the connection, the counters are in order, and
  -- the dictionary was what the applied entries write.
  pub apply_committed-Ends :
      (s t : RaftNode D) (a : Store)
      → IsAt tables s a t
      → IsConsistent a
      → Ends (apply_committed_entries sql) t (λ _ u. IsAt tables s (catch_up a) u)
  unfolding apply_committed_entries
  apply_committed-Ends s t a at c =
      Ends-bind _ _ t
        (on_storage-Ends tables _ s t a a at
          (get_last_applied-Ends sql tables laws a t.storage at.held))
        λ applied u q.
          Ends-bind _ _ u
            (on_storage-Ends tables _ s u a a q.1
              (get_commit_index-Ends sql tables laws a u.storage q.1.held))
            λ commit v r.
              rw (q.0, r.0)
                (Ends-bind _ _ v
                  (apply_loop-Ends (a.commit_index - a.last_applied) a.last_applied s v a r.1
                    (omega (arith, c.applied, c.committed)))
                  λ m w z.
                    let b : Store = record a {
                      key_values =
                          apply_entries
                            (take (a.commit_index - a.last_applied) (drop a.last_applied a.log))
                            a.key_values;
                    } in
                    let whole : a.last_applied + (a.commit_index - a.last_applied)
                        ≡ a.commit_index =
                      omega (arith, c.applied) in
                    Ends-mono
                      (on_storage_unit-Ends tables _ s w b (record b { last_applied = m }) z.1
                        (set_last_applied-Ends sql tables laws b w.storage z.1.held m))
                      λ _ x p.
                        subst (λ st. IsAt tables s st x)
                          (ap (λ k. record b { last_applied = k }) (z.0 ∙ whole)
                            ∙ ap
                                (λ values. record a {
                                  last_applied = a.commit_index;
                                  key_values = values;
                                })
                                (apply_rest a c))
                          p)
