-- ===== src/Server/Replication/Commit.antt =====
-- `updateCommitIndex` of a node without peers, on a connection on which no statement fails.
use scalable_key_value_store.Prelude.{
  ℕ, zero, suc, ◌+◌, ◌-◌, ◌≤◌, ◌<◌, ◌≡◌, refl, ap, sym, ◌∙◌, subst, true, false, some, [], arith,
  length, get_elem?, ◌==◌, ==_refl, ==_iff, Bool-cases, inl, inr,
}
use scalable_key_value_store.Server.Java.Laws.{Ends, Ends-bind, Ends-pure, Ends-gets}
use scalable_key_value_store.Server.Sql.{LogEntry, Engine}
use scalable_key_value_store.Server.Raft.{RaftNode, term_of}
use scalable_key_value_store.Server.Storage.Sqlite.{Tables, IsSqlite}
use scalable_key_value_store.Server.Storage.Refines.{
  Store, get_last_log_index-Ends, get_commit_index-Ends, set_commit_index-Ends,
}
use scalable_key_value_store.Server.Replication.{
  replicated, commit_entry, commit_loop, update_commit_index,
}
use scalable_key_value_store.Server.Replication.Spec.{IsConsistent, catch_up}
use scalable_key_value_store.Server.Replication.Frame.{IsAt, on_storage-Ends, on_storage_unit-Ends}
use scalable_key_value_store.Server.Replication.Apply.{apply_committed-Ends}
use scalable_key_value_store.Server.Replication.Entries.{term_at-Ends}

module _ {D : Type 0} (sql : Engine D) (tables : D → Tables) (laws : IsSqlite sql tables) where
  pub enough : (n : ℕ) (t : RaftNode D) → t.peers ≡ [] → replicated n t ≡ true
  unfolding replicated
  enough n t h = rw h (ground arith)

  -- all entries up to an index committed and applied
  abbrev pub commit_all : Store → ℕ → Store
  commit_all a n = catch_up (record a { commit_index = n })

  module _ (s : RaftNode D) (alone : s.peers ≡ []) where
    -- An entry of the current term is committed.
    commit-Ends :
        (n : ℕ) (t : RaftNode D) (a : Store)
        → IsAt tables s a t
        → IsConsistent (record a { commit_index = n })
        → Ends (commit_entry sql n (term_of s)) t (λ _ u. IsAt tables s (commit_all a n) u)
    unfolding commit_entry
    commit-Ends n t a at c =
        Ends-bind _ _ t
          (Ends-gets {Q = λ m u. (m ≡ term_of s) × (u ≡ t)} term_of t (ap term_of at.same, refl))
          λ m u q.
            rw (q.0, q.1)
              (Ends-bind _ _ t
                (Ends-gets {Q = λ b v. (b ≡ true) × (v ≡ t)} (replicated n) t
                  (enough n t (ap (λ (v : RaftNode D). v.peers) at.same ∙ alone), refl))
                λ b v r.
                  rw (r.0, r.1, ==_refl (term_of s))
                    (Ends-bind _ _ t
                      (on_storage_unit-Ends tables _ s t a (record a { commit_index = n }) at
                        (set_commit_index-Ends sql tables laws a t.storage at.held n))
                      λ _ w wt. apply_committed-Ends sql tables laws s w _ wt c))

    -- An entry of another term is not.
    skip-Ends :
        (n term : ℕ) (t : RaftNode D) (a : Store)
        → IsAt tables s a t
        → (term == term_of s) ≡ false
        → Ends (commit_entry sql n term) t (λ _ u. IsAt tables s a u)
    unfolding commit_entry
    skip-Ends n term t a at other =
        Ends-bind _ _ t
          (Ends-gets {Q = λ m u. (m ≡ term_of s) × (u ≡ t)} term_of t (ap term_of at.same, refl))
          λ m u q.
            rw (q.0, q.1)
              (Ends-bind _ _ t (Ends-gets {Q = λ b v. v ≡ t} (replicated n) t refl)
                λ b v r. rw (r, other) (Ends-pure tt t at))

    next-IsConsistent :
        (a : Store) (n : ℕ)
        → IsConsistent a
        → a.commit_index ≤ n
        → n < length a.log
        → IsConsistent (record a { commit_index = suc n })
    next-IsConsistent a n c below inside = record {
      applied = omega (arith, c.applied);
      committed = omega arith;
      replayed = c.replayed;
    }

    all-IsConsistent : (a : Store) (n : ℕ) → n ≤ length a.log → IsConsistent (commit_all a n)
    all-IsConsistent a n inside = record {
      applied = omega arith;
      committed = inside;
      replayed = refl;
    }

    -- If the last entry is of the current term, it is committed with all in front of it.
    commit_loop-Ends :
        (rounds n : ℕ) (t : RaftNode D) (a : Store)
        → IsAt tables s a t
        → IsConsistent a
        → a.commit_index ≤ n
        → n + suc rounds ≡ length a.log
        → ((e : LogEntry) → get_elem? a.log (n + rounds) ≡ some e → e.term ≡ term_of s)
        → Ends
            (commit_loop sql (suc rounds) (suc n))
            t
            (λ _ u. IsAt tables s (commit_all a (length a.log)) u)
    unfolding commit_loop
    commit_loop-Ends zero n t a at c below ends of_term =
        Ends-bind _ _ t (term_at-Ends sql tables laws s t a n at (omega arith)) λ term u z.
          let here : n + 0 ≡ n = omega arith in
          let last : suc n ≡ length a.log = omega arith in
          rw (z.1 ∙ of_term z.0 (ap (get_elem? a.log) here ∙ z.2.0)) (
            Ends-bind _ _ u
              (commit-Ends (suc n) u a z.2.3 (next-IsConsistent a n c below (omega arith)))
              λ _ v at'. Ends-pure tt v (subst (λ k. IsAt tables s (commit_all a k) v) last at'))
    commit_loop-Ends (suc rounds) n t a at c below ends of_term =
        let shift : suc n + rounds ≡ n + suc rounds = omega arith in
        Ends-bind _ _ t (term_at-Ends sql tables laws s t a n at (omega arith)) λ term u z.
          elim (Bool-cases (term == term_of s)) [
            | inl same ↦ rw ((==_iff term (term_of s)).0 same) (
                Ends-bind _ _ u
                  (commit-Ends (suc n) u a z.2.3 (next-IsConsistent a n c below (omega arith)))
                  λ _ v at'.
                    commit_loop-Ends rounds (suc n) v (commit_all a (suc n)) at'
                      (all-IsConsistent a (suc n) (omega arith)) (omega arith) (omega arith)
                      λ e q. of_term e (ap (get_elem? a.log) (sym shift) ∙ q))
            | inr other ↦ Ends-bind _ _ u (skip-Ends (suc n) term u a z.2.3 other) λ _ v at'.
                commit_loop-Ends rounds (suc n) v a at' c (omega arith) (omega arith)
                  λ e q. of_term e (ap (get_elem? a.log) (sym shift) ∙ q)
          ]

    -- If the last entry is not committed and of the current term, all entries are committed and
    -- applied, also those of older terms.
    pub update-Ends :
        (t : RaftNode D) (a : Store) (n : ℕ)
        → IsAt tables s a t
        → IsConsistent a
        → a.commit_index ≤ n
        → length a.log ≡ suc n
        → ((e : LogEntry) → get_elem? a.log n ≡ some e → e.term ≡ term_of s)
        → Ends (update_commit_index sql) t (λ _ u. IsAt tables s (commit_all a (length a.log)) u)
    unfolding update_commit_index
    update-Ends t a n at c below ends of_term =
        Ends-bind _ _ t
          (on_storage-Ends tables _ s t a a at
            (get_last_log_index-Ends sql tables laws a t.storage at.held))
          λ last u q.
            Ends-bind _ _ u
              (on_storage-Ends tables _ s u a a q.1
                (get_commit_index-Ends sql tables laws a u.storage q.1.held))
              λ commit v r.
                let some_left : last - commit ≡ suc (n - a.commit_index) =
                  omega (arith, q.0, r.0) in
                let to_last : a.commit_index + (n - a.commit_index) ≡ n = omega arith in
                rw (some_left, r.0)
                  (commit_loop-Ends (n - a.commit_index) a.commit_index v a r.1 c (omega arith)
                    (omega arith) λ e z. of_term e (ap (get_elem? a.log) (sym to_last) ∙ z))
