-- ===== src/Server/Replication/Append.antt =====
-- `appendEntries`, on a connection on which no statement fails.
use scalable_key_value_store.Server.RaftState
use scalable_key_value_store.Server.RaftState.{follower}
use Prim.Native.Nat.{min}
use scalable_key_value_store.Prelude.{
  none, if◌then◌else◌, get_elem?-ge, ℕ, zero, suc, ◌+◌, ◌≤◌, ◌<◌, ◌≡◌, refl, sym, Bool, true, false,
  some, List, ◌++◌, arith, length, take, ltb, Bool-cases, inl, inr, ltb→lt, ltb→le,
}
use scalable_key_value_store.Server.Java.{returns, ◌>>=◌}
use scalable_key_value_store.Server.Java.Laws.{
  Ends, Ends-bind, Ends-pure, Ends-mono, Ends-gets, Ends-modify,
}
use scalable_key_value_store.Server.Long.{signed_lt}
use scalable_key_value_store.Server.Sql.{Text, LogEntry, Engine}
use scalable_key_value_store.Server.Raft.{RaftNode, term_of, step_down, reset_election_timer}
use scalable_key_value_store.Server.Storage.Sqlite.{Tables, IsSqlite}
use scalable_key_value_store.Server.Storage.Refines.{
  Store, encode, get_last_log_index-Ends, get_commit_index-Ends, set_commit_index-Ends,
}
use scalable_key_value_store.Server.Replication.{
  observe_term, previous_matches, log_matches, commit_up_to, advance_commit, append_matching,
  append_current, append_entries,
}
use scalable_key_value_store.Server.Replication.Spec.{
  IsConsistent, is_match, appended, follow, KeepsCommitted, appended-IsConsistent, terms,
  appended-terms,
}
use scalable_key_value_store.Server.Replication.Frame.{IsAt, on_storage-Ends, on_storage_unit-Ends}
use scalable_key_value_store.Server.Replication.Apply.{apply_committed-Ends}
use scalable_key_value_store.Server.Replication.Entries.{term_at-Ends, store_entries-Ends}

-- A node that heard of a term, and whose election is put off: if its own term is older, it is now a
-- follower of that term that has voted for nobody; else its role, its term and its vote are as before.
abbrev pub heard : {D : Type 0} → ℕ → ℕ → RaftNode D → RaftNode D
heard delay term s =
    if signed_lt (term_of s) term
    then record s {
      state = record { current_role = follower; current_term = term; voted_for = none };
      voted_for = none;
      election_timer = some (150 + delay);
    }
    else record s { election_timer = some (150 + delay) }

observed :
    {D : Type 0} (delay term : ℕ) (s : RaftNode D)
    → record (observe_term term s) { election_timer = some (150 + delay) } ≡ heard delay term s
unfolding observe_term step_down RaftState.become_follower RaftState.set_current_term
observed delay term s = elim (Bool-cases (signed_lt (term_of s) term)) [
  | inl newer ↦ rw newer refl
  | inr same ↦ rw same refl
]

no_match : (l : List LogEntry) (prev term : ℕ) → length l < prev → is_match l prev term ≡ false
unfolding is_match
no_match l zero term h = absurd (omega arith)
no_match l (suc prev) term h = rw (get_elem?-ge l prev (omega arith)) refl

-- A log that matches reaches up to the index.
match-fits : (l : List LogEntry) (prev term : ℕ) → is_match l prev term ≡ true → prev ≤ length l
match-fits l prev term h = elim (Bool-cases (ltb (length l) prev)) [
  | inl short ↦ absurd (let e = no_match l prev term (ltb→lt _ _ short) in cc)
  | inr fits ↦ ltb→le (length l) prev fits
]

module _ {D : Type 0} (sql : Engine D) (tables : D → Tables) (laws : IsSqlite sql tables) where
  previous-Ends :
      (prev term : ℕ) (s t : RaftNode D) (a : Store)
      → IsAt tables s a t
      → prev ≤ length a.log
      → Ends
          (previous_matches sql prev term)
          t
          (λ b u. (b ≡ is_match a.log prev term) × IsAt tables s a u)
  unfolding previous_matches is_match
  previous-Ends zero term s t a at fits = Ends-pure true t (refl, at)
  previous-Ends (suc prev) term s t a at fits =
      Ends-bind _ _ t (term_at-Ends sql tables laws s t a prev at (omega arith))
        λ found u (e, eq, r). Ends-pure _ u (rw (eq, r.0) refl, r.3)

  log_matches-Ends :
      (prev term : ℕ) (s t : RaftNode D) (a : Store)
      → IsAt tables s a t
      → Ends
          (log_matches sql prev term)
          t
          (λ b u. (b ≡ is_match a.log prev term) × IsAt tables s a u)
  unfolding log_matches
  log_matches-Ends prev term s t a at =
      Ends-bind _ _ t
        (on_storage-Ends tables _ s t a a at
          (get_last_log_index-Ends sql tables laws a t.storage at.held))
        λ n u q. rw q.0 (elim (Bool-cases (ltb (length a.log) prev)) [
          | inl short ↦
              rw short (Ends-pure false u (sym (no_match a.log prev term (ltb→lt _ _ short)), q.1))
          | inr fits ↦ rw fits (previous-Ends prev term s u a q.1 (ltb→le _ _ fits))
        ])

  raised-IsConsistent :
      (a : Store) (n : ℕ)
      → IsConsistent a
      → a.commit_index < n
      → IsConsistent (record a { commit_index = min n (length a.log) })
  raised-IsConsistent a n c h = record {
    applied = omega (arith, c.applied, c.committed);
    committed = omega arith;
    replayed = c.replayed;
  }

  advance-Ends :
      (leader_commit : ℕ) (s t : RaftNode D) (a : Store)
      → IsAt tables s a t
      → IsConsistent a
      → Ends
          (advance_commit sql leader_commit a.commit_index)
          t
          (λ _ u. IsAt tables s (follow leader_commit a) u)
  unfolding advance_commit commit_up_to follow
  advance-Ends leader_commit s t a at c = elim (Bool-cases (ltb a.commit_index leader_commit)) [
    | inl behind ↦ rw behind (
        Ends-bind _ _ t
          (on_storage-Ends tables _ s t a a at
            (get_last_log_index-Ends sql tables laws a t.storage at.held))
          λ n u q. rw q.0 (
            let b : Store = record a { commit_index = min leader_commit (length a.log) } in
            Ends-bind _ _ u
              (on_storage_unit-Ends tables _ s u a b q.1 (
                set_commit_index-Ends sql tables laws a u.storage q.1.held
                  (min leader_commit (length a.log))))
              λ _ v bt.
                apply_committed-Ends sql tables laws s v b bt
                  (raised-IsConsistent a leader_commit c (ltb→lt _ _ behind))))
    | inr level ↦ rw level (Ends-pure tt t at)
  ]

  matching-Ends :
      (prev term leader_commit : ℕ) (es : List LogEntry) (s t : RaftNode D) (a : Store)
      → IsAt tables s a t
      → IsConsistent a
      → is_match a.log prev term ≡ true
      → KeepsCommitted a prev es
      → Ends
          (append_matching sql prev es leader_commit true)
          t
          (λ r u. (r ≡ true) × IsAt tables s (follow leader_commit (appended a prev es)) u)
  unfolding append_matching
  matching-Ends prev term leader_commit es s t a at c m k =
      let b : Store = appended a prev es in
      Ends-bind _ _ t
        (store_entries-Ends sql tables laws es s t a prev at (match-fits a.log prev term m))
        λ _ u bt.
          Ends-bind _ _ u
            (on_storage-Ends tables _ s u b b bt
              (get_commit_index-Ends sql tables laws b u.storage bt.held))
            λ n v q. rw q.0 (
              Ends-bind _ _ v
                (advance-Ends leader_commit s v b q.1 (appended-IsConsistent a prev es c k))
                λ _ w z. Ends-pure true w (refl, z))

  module _ (delay : ℕ) (id : Text) (term prev prev_term : ℕ) (es : List LogEntry)
      (leader_commit : ℕ) (s : RaftNode D) (a : Store) (held : tables s.storage ≡ encode a) where
    heard-IsAt : IsAt tables (heard delay term s) a (heard delay term s)
    heard-IsAt = elim (Bool-cases (signed_lt (term_of s) term)) [
      | inl newer ↦ rw newer (record { same = refl; held = held })
      | inr same ↦ rw same (record { same = refl; held = held })
    ]

    -- A term that is not stale is heard of, and the log is compared.
    current-Ends :
        {R : Bool → RaftNode D → Type 0}
        → signed_lt term (term_of s) ≡ false
        → ((u : RaftNode D)
            → IsAt tables (heard delay term s) a u
            → Ends (append_matching sql prev es leader_commit (is_match a.log prev prev_term)) u R)
        → Ends (append_entries sql delay id term prev prev_term es leader_commit) s R
    unfolding append_entries append_current reset_election_timer
    current-Ends fresh k =
        Ends-bind _ _ s (Ends-gets {Q = λ n t. (n ≡ term_of s) × (t ≡ s)} term_of s (refl, refl))
          λ n t q.
            rw (q.0, fresh, q.1)
              (Ends-bind _ _ s (Ends-modify {Q = λ _ u. u ≡ observe_term term s} _ s refl) λ _ u e.
                rw e (
                  Ends-bind _ _ _
                    (Ends-modify {Q = λ _ v. v ≡ heard delay term s} _ _ (observed delay term s))
                    λ _ v f. rw f (
                      Ends-bind _ _ _ (log_matches-Ends prev prev_term _ _ a heard-IsAt)
                        λ b w z. rw z.0 (k w z.1))))

    -- On a connection on which no statement fails, an RPC whose term is not stale and whose
    -- previous entry the log of the node has returns true. If the term is
    -- newer, the node becomes a follower of it that has voted for nobody. It puts off its election, keeps its
    -- entries as long as the terms agree with the new ones and has the new ones from there on, and
    -- raises its commit index to the leader's, as far as its log goes, with all entries up to
    -- there applied. This holds if the counters of the node are in order, its dictionary is what
    -- its applied entries write, and the new entries leave the committed ones in place.
    pub append_entries-accepts :
        IsConsistent a
        → signed_lt term (term_of s) ≡ false
        → is_match a.log prev prev_term ≡ true
        → KeepsCommitted a prev es
        → Ends (append_entries sql delay id term prev prev_term es leader_commit) s (λ r u.
          (r ≡ true)
          × IsAt tables (heard delay term s) (follow leader_commit (appended a prev es)) u)
    append_entries-accepts c fresh m k =
        current-Ends fresh
          λ u at. rw m (matching-Ends prev prev_term leader_commit es _ u a at c m k)

    -- On a connection on which no statement fails, an RPC whose term is not stale, but whose
    -- previous entry the log lacks or has with another term, returns false. If the term is newer, the node is a follower
    -- of it that has voted for nobody; it has put off its election, and its storage is as it was.
    pub append_entries-rejects :
        signed_lt term (term_of s) ≡ false
        → is_match a.log prev prev_term ≡ false
        → Ends
            (append_entries sql delay id term prev prev_term es leader_commit)
            s
            (λ r u. (r ≡ false) × IsAt tables (heard delay term s) a u)
    unfolding append_matching
    append_entries-rejects fresh m = current-Ends fresh λ u at. rw m (Ends-pure false u (refl, at))

    -- Behind an accepted RPC the log of the node has, up to the last of the new entries, the terms
    -- of its own entries in front of them and then the terms of the new ones. The conditions are
    -- those under which an RPC is accepted above: no statement fails, the term is not stale, the
    -- previous entry matches, the node is consistent, and the committed entries stay.
    pub append_entries-terms :
        IsConsistent a
        → signed_lt term (term_of s) ≡ false
        → is_match a.log prev prev_term ≡ true
        → KeepsCommitted a prev es
        → Ends (append_entries sql delay id term prev prev_term es leader_commit) s (λ _ u.
          (b : Store) × (tables u.storage ≡ encode b)
          × (terms (take (prev + length es) b.log) ≡ terms (take prev a.log) ++ terms es))
    append_entries-terms c fresh m k = Ends-mono (append_entries-accepts c fresh m k) λ _ u q. (
      follow leader_commit (appended a prev es),
      q.1.held,
      appended-terms a prev leader_commit es (match-fits a.log prev prev_term m),
    )

-- An RPC with a stale term returns false and changes nothing.
pub append_entries_stale :
    {D : Type 0} (sql : Engine D) (delay : ℕ) (id : Text) (term prev prev_term : ℕ)
    (es : List LogEntry) (leader_commit : ℕ) (s : RaftNode D)
    → signed_lt term (term_of s) ≡ true
    → append_entries sql delay id term prev prev_term es leader_commit s ≡ (returns false, s)
unfolding append_entries ◌>>=◌
append_entries_stale sql delay id term prev prev_term es leader_commit s h =
    rw (h, append_entries) refl
