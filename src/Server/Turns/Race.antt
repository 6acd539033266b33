-- ===== src/Server/Turns/Race.antt =====
-- A PUT that another thread answers while a thread applies an entry of the same key.
use scalable_key_value_store.Prelude.{
  ℕ, suc, ◌-◌, ◌≡◌, refl, ap, sym, ◌∙◌, true, Option, none, some, [], ◌∷◌, List, ◌++◌, length,
  get_elem?, length-append, arith,
}
use scalable_key_value_store.Server.Java.{◌>>=◌}
use scalable_key_value_store.Server.Java.Laws.{Ends, Ends-bind, Ends-pure}
use scalable_key_value_store.Server.Sql.{Text, LogEntry, Engine, text_eq_refl}
use scalable_key_value_store.Server.RaftState.{is_leader}
use scalable_key_value_store.Server.Raft.{RaftNode}
use scalable_key_value_store.Server.Storage.Sqlite.{Tables, IsSqlite, set_value}
use scalable_key_value_store.Server.Storage.Refines.{
  Store, encode, get_last_applied-Ends, get_commit_index-Ends, get-Ends, update_key_value-Ends,
  set_last_applied-Ends,
}
use scalable_key_value_store.Server.Replication.{apply_to_state_machine, apply_loop}
use scalable_key_value_store.Server.Replication.Spec.{IsConsistent}
use scalable_key_value_store.Server.Replication.Frame.{
  IsAt, IsAt-self, on_storage-Ends, on_storage_unit-Ends,
}
use scalable_key_value_store.Server.Replication.Apply.{read-Ends}
use scalable_key_value_store.Server.Service.{get, put, get_response}
use scalable_key_value_store.Server.Service.Alone.{proposal, committed, last_elem, put_alone-Ends}
use scalable_key_value_store.Server.Turns.{
  get_applied, get_commit, loop_head, apply, advance, turns, rest,
}

-- A store with two more entries, both committed, of which the older was applied last.
abbrev pub overtaken : Store → LogEntry → LogEntry → Store
overtaken a e newer =
    let b = committed a newer in
    record b { last_applied = length a.log; key_values = set_value e.key e.value b.key_values }

abbrev value_or : LogEntry → Option LogEntry → LogEntry
value_or e none = e
value_or e (some f) = f

module _ {D : Type 0} (sql : Engine D) (tables : D → Tables) (laws : IsSqlite sql tables) where
  module _ (s : RaftNode D) (a : Store) (older : List LogEntry) (e : LogEntry)
      (log : a.log ≡ older ++ e ∷ []) (applied : a.last_applied ≡ length older)
      (all : a.commit_index ≡ length a.log) where
    one_more : length a.log ≡ suc (length older)
    one_more = ap length log ∙ length-append older (e ∷ []) ∙ omega arith

    last_is : (f : LogEntry) → get_elem? a.log (length older) ≡ some f → f ≡ e
    last_is f h = sym (
        ap (value_or e)
          (sym (last_elem older e) ∙ ap (λ l. get_elem? l (length older)) (sym log) ∙ h))

    -- The thread has read its entry, and has not written it.
    reads-Ends :
        (t : RaftNode D)
        → IsAt tables s a t
        → Ends
            (turns sql 3 get_applied)
            t
            (λ p u. (p ≡ apply 0 (length a.log) e) × IsAt tables s a u)
    unfolding turns advance
    reads-Ends t at =
        Ends-bind _ _ t
          (Ends-bind _ _ t
            (on_storage-Ends tables _ s t a a at
              (get_last_applied-Ends sql tables laws a t.storage at.held))
            λ n v q.
              Ends-pure {Q = λ p w. (p ≡ get_commit (length older)) × IsAt tables s a w} _ v
                (ap get_commit (q.0 ∙ applied), q.1))
          λ p u q. rw q.0 (
            Ends-bind _ _ u
              (Ends-bind _ _ u
                (on_storage-Ends tables _ s u a a q.1
                  (get_commit_index-Ends sql tables laws a u.storage q.1.held))
                λ c v r.
                  let one : c - length older ≡ 1 = omega (arith, r.0, all, one_more) in
                  Ends-pure {Q = λ p w. (p ≡ loop_head 1 (length older)) × IsAt tables s a w} _ v
                    (ap (λ k. loop_head k (length older)) one, r.1))
              λ p v r. rw r.0 (
                Ends-bind _ _ v
                  (read-Ends sql tables laws _ s v a (length older) r.1 (omega (arith, one_more))
                    λ f w k.
                      Ends-pure {Q = λ p w. (p ≡ apply 0 (length a.log) e) × IsAt tables s a w} _ w
                        (rw (last_is f k.0, one_more) refl, k.3))
                  λ p w z. Ends-pure p w z))

    -- What is left writes the entry over whatever the key has.
    writes-Ends :
        (u t : RaftNode D) (b : Store) (n : ℕ)
        → IsAt tables u b t
        → Ends (rest sql (apply 0 n e)) t (λ _ v.
          IsAt tables u
            (record b { last_applied = n; key_values = set_value e.key e.value b.key_values })
            v)
    unfolding rest apply_to_state_machine apply_loop
    writes-Ends u t b n at =
        Ends-bind _ _ t
          (on_storage_unit-Ends tables _ u t b
            (record b { key_values = set_value e.key e.value b.key_values }) at
            (update_key_value-Ends sql tables laws b t.storage at.held e.key e.value))
          λ _ v vt.
            Ends-bind _ _ v (Ends-pure {Q = λ m w. (m ≡ n) × (w ≡ v)} n v (refl, refl)) λ m w q.
              rw (q.0, q.1)
                (on_storage_unit-Ends tables _ u v _ _ vt (
                  set_last_applied-Ends sql tables laws
                    (record b { key_values = set_value e.key e.value b.key_values }) v.storage
                    vt.held n))

    module _ (random : Text → ℕ) (value : Text) (held : tables s.storage ≡ encode a)
        (leads : is_leader s.state ≡ true) (alone : s.peers ≡ []) (c : IsConsistent a) where
      -- At a leader without peers whose last entry is committed and is the only one that is not
      -- applied, let a thread apply it up to the read of the entry, let then another thread answer a
      -- PUT of another value for the key of the entry, and let the first thread go on to its end:
      -- though the newer entry stands in the log, is committed and was applied, a GET of the key
      -- finds the older value, and the index of the applied entries has gone back. No statement
      -- fails on the connection, the counters are in order, and the dictionary was what the applied
      -- entries write.
      pub overtaken-Ends :
          Ends
            (turns sql 3 get_applied >>= λ p.
              put sql random e.key value >>= λ _. rest sql p >>= λ _. get sql e.key)
            s
            (λ r u.
              (r ≡ record { value = e.value; found = true })
              × (tables u.storage ≡ encode (overtaken a e (proposal s e.key value))))
      unfolding get
      overtaken-Ends = Ends-bind _ _ s (reads-Ends s (IsAt-self tables s a held)) λ p t q. rw q.0 (
          let b = committed a (proposal t e.key value) in
          let z : Store = record b {
            last_applied = length a.log;
            key_values = set_value e.key e.value b.key_values;
          } in
          let found : z.key_values e.key ≡ some e.value = rw (text_eq_refl e.key) refl in
          let same_entry : proposal t e.key value ≡ proposal s e.key value =
            ap (λ v. proposal v e.key value) q.1.same in
          Ends-bind _ _ t
            (put_alone-Ends sql tables laws random e.key value t a q.1.held
              (ap (λ (v : RaftNode D). is_leader v.state) q.1.same ∙ leads)
              (ap (λ (v : RaftNode D). v.peers) q.1.same ∙ alone) c)
            λ _ u r. Ends-bind _ _ u (writes-Ends t u b (length a.log) r.1) λ _ v vt.
              Ends-bind _ _ v
                (on_storage-Ends tables _ t v z z vt
                  (get-Ends sql tables laws z v.storage vt.held e.key))
                λ o w k. Ends-pure _ w (
                  ap get_response (k.0 ∙ found),
                  k.1.held ∙ ap (λ f. encode (overtaken a e f)) same_entry,
                ))
