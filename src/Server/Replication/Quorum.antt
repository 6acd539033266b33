-- ===== src/Server/Replication/Quorum.antt =====
-- `updateCommitIndex`: when an index counts as replicated, and what the loop leaves as it is.
use scalable_key_value_store.Prelude.{
  [], ◌∷◌, ◌<◌, leb, Bool, false, some, sym, subst, get_elem?, if◌then◌else◌, ltb→lt, ltb→le, ◌⊎◌,
  ℕ, zero, suc, ◌+◌, ◌-◌, ◌*◌, ◌/◌, ◌≤◌, ◌≡◌, refl, ap, ◌∙◌, true, List, arith, length, ◌==◌, ltb,
  ◌&&◌, Bool-cases, inl, inr,
}
use scalable_key_value_store.Server.Java.Laws.{Ends, Ends-bind, Ends-pure, Ends-mono, Ends-gets}
use scalable_key_value_store.Server.Sql.{Text, LogEntry, Engine}
use scalable_key_value_store.Server.Raft.{Dict, RaftNode, term_of}
use scalable_key_value_store.Server.Storage.Sqlite.{Tables, IsSqlite}
use scalable_key_value_store.Server.Storage.Refines.{
  Store, get_last_log_index-Ends, get_commit_index-Ends, set_commit_index-Ends,
}
use scalable_key_value_store.Server.Replication.{
  count_from, replicated, commit_entry, commit_loop, update_commit_index,
}
use scalable_key_value_store.Server.Replication.Spec.{
  has_term, IsConsistent, catch_up, catch_up-IsConsistent,
}
use scalable_key_value_store.Server.Replication.Frame.{IsAt, on_storage-Ends, on_storage_unit-Ends}
use scalable_key_value_store.Server.Replication.Apply.{apply_committed-Ends}
use scalable_key_value_store.Server.Replication.Entries.{term_at-Ends}

-- the elements of a list that satisfy a test
abbrev pub filter : {A : Type 0} → (A → Bool) → List A → List A
filter f [] = []
filter f (x ∷ xs) = if f x then x ∷ filter f xs else filter f xs

-- how many replicas have the log up to an index
abbrev pub holders : ℕ → Dict ℕ → ℕ
holders n m = length (filter (λ (p : Text × ℕ). leb n p.1) m)

count_from-holders : (n : ℕ) (m : Dict ℕ) → count_from n m ≡ holders n m
unfolding count_from
count_from-holders n [] = refl
count_from-holders n ((id, k) ∷ m) = elim (Bool-cases (leb n k)) [
  | inl has ↦ rw has (ap suc (count_from-holders n m))
  | inr lacks ↦ rw lacks (count_from-holders n m)
]

-- all entries up to an index committed and applied
abbrev pub committed_to : Store → ℕ → Store
committed_to a n = catch_up (record a { commit_index = n })

half_leb : (p c : ℕ) → ltb (p / 2) (1 + c) ≡ leb (p + 1) (2 * (1 + c))
half_leb p c = ground arith

module _ {D : Type 0} where
  -- The entry at a position has the current term, and the node and the replicas that have it are at
  -- least half of the servers.
  abbrev pub is_committable : RaftNode D → List LogEntry → ℕ → Bool
  is_committable s l k =
      has_term (get_elem? l k) (term_of s)
      && leb (length s.peers + 1) (2 * (1 + holders (suc k) s.match_index))

  replicated-holders :
      (n : ℕ) (s : RaftNode D)
      → replicated n s ≡ leb (length s.peers + 1) (2 * (1 + holders n s.match_index))
  unfolding replicated
  replicated-holders n s =
      half_leb (length s.peers) (count_from n s.match_index)
      ∙ ap (λ c. leb (length s.peers + 1) (2 * (1 + c))) (count_from-holders n s.match_index)

  -- What became of a store once the positions below one were looked at: the entry that may be
  -- committed and stands last is the last that is committed, with all in front of it, and all are
  -- applied; if there is none, the store is as it was.
  pub record IsSettled (s : RaftNode D) (a b : Store) (n : ℕ) : Type 0 where
    pub made :
        (b ≡ a)
        ⊎ ((k : ℕ) × (a.commit_index ≤ k)
            × (k < n)
            × (is_committable s a.log k ≡ true)
            × (b ≡ committed_to a (suc k)))
    pub highest : (k : ℕ) → b.commit_index ≤ k → k < n → is_committable s a.log k ≡ false

module _ {D : Type 0} (sql : Engine D) (tables : D → Tables) (laws : IsSqlite sql tables) where
  module _ (s : RaftNode D) (a : Store) where
    -- The loop is in front of a position.
    record IsLoop (b : Store) (n : ℕ) (u : RaftNode D) : Type 0 where
      at : IsAt tables s b u
      consistent : IsConsistent b
      log : b.log ≡ a.log
      above : a.commit_index ≤ b.commit_index
      below : b.commit_index ≤ n
      settled : IsSettled s a b n

    committed-IsLoop :
        (b : Store) (n : ℕ) (t u : RaftNode D)
        → IsLoop b n t
        → n < length a.log
        → is_committable s a.log n ≡ true
        → IsAt tables s (committed_to b (suc n)) u
        → IsLoop (committed_to b (suc n)) (suc n) u
    committed-IsLoop b n t u h inside good at = record {
      at = at;
      consistent =
          catch_up-IsConsistent (record b { commit_index = suc n })
            (omega (arith, ap length h.log));
      log = h.log;
      above = omega (arith, h.above, h.below);
      below = omega arith;
      settled = record {
        made = inr (
          n,
          omega (arith, h.above, h.below),
          omega arith,
          good,
          ap (λ l. committed_to (record a { log = l }) (suc n)) h.log,
        );
        highest = λ k low high. absurd (omega arith);
      };
    }

    up_to :
        (b : Store) (n : ℕ)
        → IsSettled s a b n
        → is_committable s a.log n ≡ false
        → (k : ℕ) → b.commit_index ≤ k
        → k < suc n
        → is_committable s a.log k ≡ false
    up_to b n h bad k low high = elim (Bool-cases (ltb k n)) [
      | inl less ↦ h.highest k low (ltb→lt k n less)
      | inr more ↦
          let e : n ≡ k = omega (arith, ltb→le k n more) in
          subst (λ i. is_committable s a.log i ≡ false) e bad
    ]

    skipped-IsLoop :
        (b : Store) (n : ℕ) (t u : RaftNode D)
        → IsLoop b n t
        → is_committable s a.log n ≡ false
        → IsAt tables s b u
        → IsLoop b (suc n) u
    skipped-IsLoop b n t u h bad at = record {
      at = at;
      consistent = h.consistent;
      log = h.log;
      above = h.above;
      below = omega (arith, h.below);
      settled = record {
        made = elim h.settled.made [
          | inl same ↦ inl same
          | inr (k, low, high, good, e) ↦ inr (k, low, omega arith, good, e)
        ];
        highest = up_to b n h.settled bad;
      };
    }

    commit_one :
        (n : ℕ) (t : RaftNode D) (b : Store) (e : LogEntry)
        → IsLoop b n t
        → get_elem? b.log n ≡ some e
        → n < length a.log
        → Ends (commit_entry sql (suc n) e.term) t (λ _ u. (c : Store) × IsLoop c (suc n) u)
    unfolding commit_entry
    commit_one n t b e h found inside =
        Ends-bind _ _ t
          (Ends-gets {Q = λ m u. (m ≡ term_of s) × (u ≡ t)} term_of t (ap term_of h.at.same, refl))
          λ m u q.
            rw (q.0, q.1)
              (Ends-bind _ _ t
                (Ends-gets {Q = λ g v. (g ≡ held) × (v ≡ t)} (replicated (suc n)) t (enough, refl))
                λ g v r.
                  rw (r.0, r.1)
                    (elim (Bool-cases ((e.term == term_of s) && held)) [
                      | inl commits ↦ rw commits (
                          Ends-bind _ _ t
                            (on_storage_unit-Ends tables _ s t b (record b { commit_index = suc n })
                              h.at
                              (set_commit_index-Ends sql tables laws b t.storage h.at.held (suc n)))
                            λ _ w wt.
                              Ends-mono
                                (apply_committed-Ends sql tables laws s w _ wt (record {
                                  applied = omega (arith, h.consistent.applied, h.below);
                                  committed = omega (arith, ap length h.log);
                                  replayed = h.consistent.replayed;
                                }))
                                λ _ x z. (
                                  committed_to b (suc n),
                                  committed-IsLoop b n t x h inside (test ∙ commits) z,
                                ))
                      | inr stays ↦
                          rw stays
                            (Ends-pure tt t (b, skipped-IsLoop b n t t h (test ∙ stays) h.at))
                    ]))
      where
        held : Bool
        held = leb (length s.peers + 1) (2 * (1 + holders (suc n) s.match_index))

        enough : replicated (suc n) t ≡ held
        enough =
            replicated-holders (suc n) t
            ∙ ap
                (λ (v : RaftNode D).
                  leb (length v.peers + 1) (2 * (1 + holders (suc n) v.match_index)))
                h.at.same

        test : is_committable s a.log n ≡ (e.term == term_of s) && held
        test =
            ap (λ o. has_term o (term_of s) && held) (ap (λ l. get_elem? l n) (sym h.log) ∙ found)

    commits :
        (rounds n : ℕ) (t : RaftNode D) (b : Store)
        → IsLoop b n t
        → n + rounds ≡ length a.log
        → Ends (commit_loop sql rounds (suc n)) t (λ _ u. (c : Store) × IsLoop c (length a.log) u)
    unfolding commit_loop
    commits zero n t b h ends =
        let here : n ≡ length a.log = omega arith in
        Ends-pure tt t (b, subst (λ k. IsLoop b k t) here h)
    commits (suc rounds) n t b h ends =
        Ends-bind _ _ t (term_at-Ends sql tables laws s t b n h.at (omega (arith, ap length h.log)))
          λ term u (e, same, read). rw same (
            Ends-bind _ _ u (commit_one n u b e (moved u read.3) read.0 (omega arith))
              λ _ v (c, next). commits rounds (suc n) v c next (omega arith))
      where
        moved : (u : RaftNode D) → IsAt tables s b u → IsLoop b n u
        moved u at = record {
          at = at;
          consistent = h.consistent;
          log = h.log;
          above = h.above;
          below = h.below;
          settled = h.settled;
        }

    rounds-Ends :
        (t : RaftNode D)
        → IsAt tables s a t
        → IsConsistent a
        → Ends (update_commit_index sql) t (λ _ u. (b : Store) × IsLoop b (length a.log) u)
    unfolding update_commit_index
    rounds-Ends t at c =
        Ends-bind _ _ t
          (on_storage-Ends tables _ s t a a at
            (get_last_log_index-Ends sql tables laws a t.storage at.held))
          λ last u q.
            Ends-bind _ _ u
              (on_storage-Ends tables _ s u a a q.1
                (get_commit_index-Ends sql tables laws a u.storage q.1.held))
              λ commit v r.
                rw (q.0, r.0)
                  (commits (length a.log - a.commit_index) a.commit_index v a
                    (record {
                      at = r.1;
                      consistent = c;
                      log = refl;
                      above = omega arith;
                      below = omega arith;
                      settled = record {
                        made = inl refl;
                        highest = λ k low high. absurd (omega arith);
                      };
                    })
                    (omega (arith, c.committed)))

    -- On a connection on which no statement fails, with the counters of the node in order and its
    -- dictionary what the applied entries write, the commit index goes to the last entry of the
    -- current term that at least half of the servers have, the node counted as one that has it, and
    -- all entries up to there are applied. If no entry behind the commit index is such a one,
    -- nothing changes.
    pub update_commit_index-IsSettled :
        (t : RaftNode D)
        → IsAt tables s a t
        → IsConsistent a
        → Ends
            (update_commit_index sql)
            t
            (λ _ u. (b : Store) × IsAt tables s b u × IsSettled s a b (length a.log))
    update_commit_index-IsSettled t at c =
        Ends-mono (rounds-Ends t at c) λ _ u (b, h). (b, h.at, h.settled)

  -- The node is `s` but for its storage, whose log is that one.
  abbrev pub IsLogged : RaftNode D → List LogEntry → RaftNode D → Type 0
  IsLogged s l u = (b : Store) × IsAt tables s b u × IsConsistent b × (b.log ≡ l)

  pub update-Ends :
      (s t : RaftNode D) (a : Store)
      → IsAt tables s a t
      → IsConsistent a
      → Ends (update_commit_index sql) t (λ _ u. IsLogged s a.log u)
  update-Ends s t a at c =
      Ends-mono (rounds-Ends s a t at c) λ _ u (b, h). (b, h.at, h.consistent, h.log)
