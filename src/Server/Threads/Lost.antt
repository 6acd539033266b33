-- ===== src/Server/Threads/Lost.antt =====
-- A PUT that another thread answers while a thread is about to store an older commit index.
use scalable_key_value_store.Prelude.{
  ℕ, suc, ◌-◌, ◌≡◌, refl, ap, sym, ◌∙◌, subst, true, some, [], ◌∷◌, List, ◌++◌, length, get_elem?,
  length-append, arith, ◌==◌, ==_iff, ◌≤◌,
}
use scalable_key_value_store.Server.Java.{Exec, pure, ◌>>=◌, ◌>>◌, returns, Outcome}
use scalable_key_value_store.Server.Java.Laws.{Ends, Ends-bind, Ends-pure, Ends-mono, Ends-gets}
use scalable_key_value_store.Server.Sql.{Text, LogEntry, Engine}
use scalable_key_value_store.Server.RaftState.{is_leader}
use scalable_key_value_store.Server.Raft.{RaftNode, on_storage, term_of}
use scalable_key_value_store.Server.Storage
use scalable_key_value_store.Server.Storage.Sqlite.{Tables, IsSqlite}
use scalable_key_value_store.Server.Storage.Refines.{
  Store, encode, get_last_log_index-Ends, get_log_entry-Ends, get_commit_index-Ends,
  set_commit_index-Ends, get_last_applied-Ends, set_last_applied-Ends,
}
use scalable_key_value_store.Server.Replication
use scalable_key_value_store.Server.Replication.Spec.{IsConsistent}
use scalable_key_value_store.Server.Replication.Frame.{
  IsAt, IsAt-self, on_storage-Ends, on_storage_unit-Ends,
}
use scalable_key_value_store.Server.Replication.Commit.{enough}
use scalable_key_value_store.Server.Service
use scalable_key_value_store.Server.Service.{PutResponse, put_response}
use scalable_key_value_store.Server.Service.Alone.{proposal, committed, last_elem, put_alone-Ends}
use scalable_key_value_store.Server.Threads.Calls.{
  Call, Answer, Prog, and_then, ended, call, read_term, read_replicated, get_last_log_index,
  get_log_entry, get_commit_index, set_commit_index,
}
use scalable_key_value_store.Server.Threads.Programs.{
  apply_committed_entries, commit_if, commit_entry, commit_loop, term_at, update_commit_index,
  non_null,
}
use scalable_key_value_store.Server.Threads.Perform.{perform, advance, resume, alone, goes}
use scalable_key_value_store.Server.Threads.Alone.{
  Runs, Runs-call, Runs-bind, Runs-ended, apply_committed-Runs,
}

-- A store with one more entry, all applied, whose commit index stands in front of it.
abbrev pub lost : Store → LogEntry → Store
lost a newer = record (committed a newer) { commit_index = length a.log }

module _ {D : Type 0} (sql : Engine D) where
  goes-Ends :
      {A : Type 0} {Q : Prog A → RaftNode D → Type 0} (c : Call) (k : Answer c → Prog A) (n : ℕ)
      (s : RaftNode D) (R : Answer c → RaftNode D → Type 0)
      → Ends (perform sql c) s R
      → ((x : Answer c) (u : RaftNode D) → R x u → Ends (goes sql n (k x)) u Q)
      → Ends (goes sql (suc n) (call c k)) s Q
  unfolding goes advance
  goes-Ends c k n s R e next =
      Ends-bind {Q = λ p u. (x : Answer c) × (p ≡ k x) × R x u} _ _ s
        (record {
          result = k e.result;
          state = e.state;
          runs = ap (λ (m : Outcome (Answer c) × RaftNode D). (returns (resume m.0 k), m.1)) e.runs;
          holds = (e.result, refl, e.holds);
        })
        λ p u q. rw q.1 (next q.0 u q.2)

  goes_none-Ends :
      {A : Type 0} {Q : Prog A → RaftNode D → Type 0} (p : Prog A) (s : RaftNode D)
      → Q p s
      → Ends (goes sql 0 p) s Q
  unfolding goes
  goes_none-Ends p s q = Ends-pure p s q

  -- what a thread has left that is about to store a commit index in its last round
  abbrev pub waiting : ℕ → Prog (Unit {0})
  waiting n = and_then (call (set_commit_index n) λ _. apply_committed_entries) (λ _. ended tt)

  module _ (tables : D → Tables) (laws : IsSqlite sql tables) (s : RaftNode D) (a : Store)
      (older : List LogEntry) (e : LogEntry) (log : a.log ≡ older ++ e ∷ [])
      (behind : a.commit_index ≡ length older) (current : e.term ≡ term_of s)
      (alone_there : s.peers ≡ []) where
    one_more : length a.log ≡ suc (length older)
    one_more = ap length log ∙ length-append older (e ∷ []) ∙ omega arith

    found : get_elem? a.log (length older) ≡ some e
    found = ap (λ l. get_elem? l (length older)) log ∙ last_elem older e

    round-Ends :
        (v : RaftNode D)
        → IsAt tables s a v
        → Ends
            (goes sql 3 (commit_loop 1 (suc (length older))))
            v
            (λ p u. (p ≡ waiting (length a.log)) × IsAt tables s a u)
    unfolding commit_loop term_at non_null commit_entry commit_if perform
    round-Ends v at =
        goes-Ends (get_log_entry (suc (length older))) _ 2 v
          (λ o u. (o ≡ some e) × IsAt tables s a u)
          (Ends-mono
            (on_storage-Ends tables _ s v a a at
              (get_log_entry-Ends sql tables laws a v.storage at.held (length older)))
            λ o u q. (q.0 ∙ found, q.1))
          λ o u q. rw q.0 (
            goes-Ends read_term _ 1 u (λ n w. (n ≡ term_of s) × IsAt tables s a w)
              (Ends-gets term_of u (ap term_of q.1.same, q.1))
              λ n w r.
                let same : (e.term == n) ≡ true = (==_iff e.term n).1 (current ∙ sym r.0) in
                rw same (
                  goes-Ends (read_replicated (suc (length older))) _ 0 w
                    (λ b x. (b ≡ true) × IsAt tables s a x)
                    (Ends-gets (Replication.replicated (suc (length older))) w (
                      enough sql tables laws (suc (length older)) w
                          (ap (λ (x : RaftNode D). x.peers) r.1.same ∙ alone_there),
                      r.1,
                    ))
                    λ b x z. rw z.0 (goes_none-Ends _ x (ap waiting (sym one_more), z.1))))

    -- The last entry is to be committed, in the only round that is left.
    reads-Ends :
        (t : RaftNode D)
        → IsAt tables s a t
        → Ends
            (goes sql 5 update_commit_index)
            t
            (λ p u. (p ≡ waiting (length a.log)) × IsAt tables s a u)
    unfolding update_commit_index perform
    reads-Ends t at =
        goes-Ends get_last_log_index _ 4 t (λ n u. (n ≡ length a.log) × IsAt tables s a u)
          (on_storage-Ends tables _ s t a a at
            (get_last_log_index-Ends sql tables laws a t.storage at.held))
          λ last u q.
            goes-Ends get_commit_index _ 3 u (λ n v. (n ≡ a.commit_index) × IsAt tables s a v)
              (on_storage-Ends tables _ s u a a q.1
                (get_commit_index-Ends sql tables laws a u.storage q.1.held))
              λ commit v r.
                let one : last - commit ≡ 1 = omega (arith, q.0, r.0, behind, one_more) in
                let from : commit ≡ length older = r.0 ∙ behind in rw (one, from) (round-Ends v r.1)

    -- What is left stores the older index; nothing is left to apply.
    waiting-Runs : Runs sql (waiting (length a.log)) (
        (on_storage (Storage.set_commit_index sql (length a.log))
          >> Replication.apply_committed_entries sql)
        >> pure tt)
    unfolding perform
    waiting-Runs =
        Runs-bind sql
          (Runs-call sql (set_commit_index (length a.log)) λ _. apply_committed-Runs sql)
          λ _. Runs-ended sql tt

    nothing-Ends :
        (u t : RaftNode D) (b : Store)
        → IsAt tables u b t
        → b.commit_index ≤ b.last_applied
        → Ends (Replication.apply_committed_entries sql) t (λ _ v. IsAt tables u b v)
    unfolding Replication.apply_committed_entries Replication.apply_loop
    nothing-Ends u t b at less =
        Ends-bind _ _ t
          (on_storage-Ends tables _ u t b b at
            (get_last_applied-Ends sql tables laws b t.storage at.held))
          λ n v q.
            Ends-bind _ _ v
              (on_storage-Ends tables _ u v b b q.1
                (get_commit_index-Ends sql tables laws b v.storage q.1.held))
              λ m w r.
                let none_left : m - n ≡ 0 = omega (arith, q.0, r.0) in
                rw none_left (
                  Ends-bind _ _ w (Ends-pure {Q = λ k x. (k ≡ n) × (x ≡ w)} n w (refl, refl))
                    λ k x z.
                      rw (z.0, z.1)
                        (Ends-mono
                          (on_storage_unit-Ends tables _ u w b (record b { last_applied = n }) r.1
                            (set_last_applied-Ends sql tables laws b w.storage r.1.held n))
                          λ _ y at'.
                            subst (λ i. IsAt tables u (record b { last_applied = i }) y) q.0 at'))

    stores-Ends :
        (t u : RaftNode D) (newer : LogEntry)
        → IsAt tables t (committed a newer) u
        → Ends (alone sql (waiting (length a.log))) u (λ _ v. IsAt tables t (lost a newer) v)
    stores-Ends t u newer at =
        let m : Exec (RaftNode D) (Unit {0}) =
          on_storage (Storage.set_commit_index sql (length a.log))
          >> Replication.apply_committed_entries sql in
        let e : Ends (m >> pure tt) u (λ _ v. IsAt tables t (lost a newer) v) =
          Ends-bind _ _ u
            (Ends-bind _ _ u
              (on_storage_unit-Ends tables _ t u (committed a newer) (lost a newer) at (
                set_commit_index-Ends sql tables laws (committed a newer) u.storage at.held
                  (length a.log)))
              λ _ v vt. nothing-Ends t v (lost a newer) vt (omega arith))
            λ _ v vt. Ends-pure tt v vt in
        record {
          result = e.result;
          state = e.state;
          runs = waiting-Runs.at u ∙ e.runs;
          holds = e.holds;
        }

    module _ (random : Text → ℕ) (key value : Text) (held : tables s.storage ≡ encode a)
        (leads : is_leader s.state ≡ true) (c : IsConsistent a) where
      -- At a leader without peers whose last entry alone is not committed and has the current term,
      -- let a thread bring the commit index up to date as far as the write of the index, let then
      -- another thread answer a PUT, and let the first thread go on to its end: the PUT was
      -- answered with a success, and its entry is in the log and was applied, but the commit index
      -- has gone back in front of it. No statement fails on the connection, the counters are in
      -- order, and the dictionary was what the applied entries write.
      pub lost-Ends :
          Ends
            (goes sql 5 update_commit_index >>= λ p.
              Service.put sql random key value >>= λ r. alone sql p >>= λ _. pure r)
            s
            (λ r u.
              (r ≡ put_response true) × (tables u.storage ≡ encode (lost a (proposal s key value))))
      lost-Ends = Ends-bind _ _ s (reads-Ends s (IsAt-self tables s a held)) λ p t q. rw q.0 (
          let newer = proposal t key value in
          let same_entry : newer ≡ proposal s key value = ap (λ v. proposal v key value) q.1.same in
          Ends-bind _ _ t
            (put_alone-Ends sql tables laws random key value t a q.1.held
              (ap (λ (v : RaftNode D). is_leader v.state) q.1.same ∙ leads)
              (ap (λ (v : RaftNode D). v.peers) q.1.same ∙ alone_there) c)
            λ r u z.
              Ends-bind _ _ u (stores-Ends t u newer z.1)
                λ _ v vt. Ends-pure r v (z.0, vt.held ∙ ap (λ f. encode (lost a f)) same_entry))
