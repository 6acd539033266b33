-- ===== src/Server/Replication/Sending.antt =====
-- `sendAppendEntries`, on a connection on which no statement fails.
use scalable_key_value_store.Prelude.{
  ℕ, zero, suc, ◌-◌, ◌≤◌, ◌≡◌, refl, ap, sym, ◌∙◌, true, false, List, [], ◌∷◌, ◌++◌, arith, length,
  take, drop, get_elem?, Bool-cases, inl, inr, take-append-drop, le→ltb, ==_refl,
}
use scalable_key_value_store.Server.Java.Laws.{
  Ends, Ends-bind, Ends-pure, Ends-mono, Ends-gets, Ends-modify,
}
use scalable_key_value_store.Server.Long.{signed_lt}
use scalable_key_value_store.Server.Sql.{text_eq_refl, Text, LogEntry, Engine, text_eq}
use scalable_key_value_store.Server.Raft.{
  NodeInfo, Dict, dict_put, get_or_default, RaftNode, term_of,
}
use scalable_key_value_store.Server.Storage.{term_or_zero}
use scalable_key_value_store.Server.Storage.Sqlite.{Tables, IsSqlite}
use scalable_key_value_store.Server.Storage.Refines.{
  Store, encode, get_last_log_index-Ends, get_commit_index-Ends, get_log_entries-Ends,
}
use scalable_key_value_store.Server.Replication.{
  previous_term, append_entries, note_match, after_append, send_append_entries,
}
use scalable_key_value_store.Server.Replication.Spec.{
  IsConsistent, is_match, reconcile, appended, follow, drop_step,
}
use scalable_key_value_store.Server.Replication.Frame.{IsAt, IsAt-self, on_storage-Ends}
use scalable_key_value_store.Server.Replication.Entries.{term_at-Ends}
use scalable_key_value_store.Server.Replication.Append.{append_entries-accepts}
use scalable_key_value_store.Server.Replication.Quorum.{update-Ends}

-- The peer is counted as holding the log.
abbrev pub IsCounted : {D : Type 0} → NodeInfo → List LogEntry → RaftNode D → Type 0
IsCounted peer log u =
    (get_or_default peer.id 0 u.match_index ≡ length log)
    × (get_or_default peer.id 1 u.next_index ≡ suc (length log))

reconcile_self : (l : List LogEntry) → reconcile l l ≡ l
unfolding reconcile
reconcile_self [] = refl
reconcile_self (e ∷ l) = rw (==_refl e.term) (ap (◌∷◌ e) (reconcile_self l))

pub appended_self : (a : Store) (k : ℕ) → appended a k (drop k a.log) ≡ a
appended_self a k =
    ap (λ l. record a { log = l })
      (ap (λ r. take k a.log ++ r) (reconcile_self (drop k a.log)) ∙ take-append-drop k a.log)

follow_self : (a : Store) → follow a.commit_index a ≡ a
unfolding follow
follow_self a = rw (le→ltb a.commit_index a.commit_index (omega arith)) refl

signed_lt_irrefl : (n : ℕ) → signed_lt n n ≡ false
unfolding signed_lt
signed_lt_irrefl n = ground arith

get-dict_put : (k : Text) (v w : ℕ) (m : Dict ℕ) → get_or_default k w (dict_put k v m) ≡ v
unfolding dict_put get_or_default
get-dict_put k v w [] = rw (text_eq_refl k) refl
get-dict_put k v w ((j, x) ∷ m) = elim (Bool-cases (text_eq j k)) [
  | inl same ↦ rw same (rw (text_eq_refl k) refl)
  | inr other ↦ rw other (rw other (get-dict_put k v w m))
]

-- The previous entry of a log's own rest matches.
abbrev pub own_term : List LogEntry → ℕ → ℕ
own_term l zero = 0
own_term l (suc k) = term_or_zero (get_elem? l k)

pub own-is_match : (l : List LogEntry) (k : ℕ) → k ≤ length l → is_match l k (own_term l k) ≡ true
unfolding is_match
own-is_match l zero h = refl
own-is_match l (suc k) h = let step = drop_step k l (omega arith) in rw step.1 (==_refl step.0.term)

module _ {D : Type 0} (sql : Engine D) (tables : D → Tables) (laws : IsSqlite sql tables) where
  pub previous_term-Ends :
      (k : ℕ) (s t : RaftNode D) (a : Store)
      → IsAt tables s a t
      → k ≤ length a.log
      → Ends (previous_term sql k) t (λ n u. (n ≡ own_term a.log k) × IsAt tables s a u)
  unfolding previous_term
  previous_term-Ends zero s t a at h = Ends-pure 0 t (refl, at)
  previous_term-Ends (suc k) s t a at h =
      Ends-mono (term_at-Ends sql tables laws s t a k at (omega arith))
        λ n u q. (q.1 ∙ sym (ap term_or_zero q.2.0), q.2.3)

  module _ (delay : ℕ) (peer : NodeInfo) (s : RaftNode D) (a : Store) (k : ℕ)
      (held : tables s.storage ≡ encode a) (c : IsConsistent a) (fits : k ≤ length a.log)
      (next : get_or_default peer.id 1 s.next_index ≡ suc k) where
    -- The node accepts its own RPC, and its storage stays as it is.
    own-Ends :
        (t : RaftNode D)
        → IsAt tables s a t
        → Ends
            (append_entries sql delay peer.id
              (term_of s)
              k
              (own_term a.log k)
              (drop k a.log)
              a.commit_index)
            t
            (λ r u. (r ≡ true) × (tables u.storage ≡ encode a))
    own-Ends t at =
        Ends-mono
          (append_entries-accepts sql tables laws delay peer.id (term_of s) k (own_term a.log k)
            (drop k a.log) a.commit_index t a at.held c
            (ap (λ v. signed_lt (term_of s) (term_of v)) at.same ∙ signed_lt_irrefl (term_of s))
            (own-is_match a.log k fits)
            (ap (λ (b : Store). take a.commit_index b.log) (appended_self a k)))
          λ r u q. (
            q.0,
            q.1.held ∙ ap encode (ap (follow a.commit_index) (appended_self a k) ∙ follow_self a),
          )

    counted :
        (t u : RaftNode D) (b : Store)
        → IsAt tables (note_match peer.id (length a.log) (length a.log) t) b u
        → IsCounted peer a.log u
    unfolding note_match
    counted t u b at = (
      ap (λ (v : RaftNode D). get_or_default peer.id 0 v.match_index) at.same
          ∙ get-dict_put peer.id (length a.log) 0 t.match_index,
      ap (λ (v : RaftNode D). get_or_default peer.id 1 v.next_index) at.same
          ∙ get-dict_put peer.id (suc (length a.log)) 1 t.next_index,
    )

    after-Ends :
        (t : RaftNode D)
        → tables t.storage ≡ encode a
        → Ends (after_append sql peer.id true) t (λ _ u. IsCounted peer a.log u)
    unfolding after_append note_match
    after-Ends t h =
        Ends-bind _ _ t
          (on_storage-Ends tables _ t t a a (IsAt-self tables t a h)
            (get_last_log_index-Ends sql tables laws a t.storage h))
          λ next_last u q.
            Ends-bind _ _ u
              (on_storage-Ends tables _ t u a a q.1
                (get_last_log_index-Ends sql tables laws a u.storage q.1.held))
              λ match_last v r.
                rw (q.0, r.0)
                  (let counting = note_match peer.id (length a.log) (length a.log) v in
                    Ends-bind _ _ v (Ends-modify {Q = λ _ w. w ≡ counting} _ v refl) λ _ w e. rw e (
                      Ends-mono
                        (update-Ends sql tables laws counting counting a
                          (IsAt-self tables counting a r.1.held) c)
                        λ _ x z. counted v x z.0 z.1))

    -- On a connection on which no statement fails, sending entries to a peer ends with the peer
    -- counted as holding the whole log of the node: the node answers its own RPC, and nothing is
    -- asked of the peer. The counters of the node are in order, its dictionary is what its applied
    -- entries write, and the entries to send begin at an index of the log or right behind it.
    pub send_append_entries-IsCounted :
        Ends (send_append_entries sql delay peer) s (λ _ u. IsCounted peer a.log u)
    unfolding send_append_entries
    send_append_entries-IsCounted =
        Ends-bind _ _ s
          (Ends-gets {Q = λ n t. (n ≡ suc k) × (t ≡ s)} (λ t. get_or_default peer.id 1 t.next_index)
            s (next, refl))
          λ n t q.
            rw (q.0, q.1)
              (Ends-bind _ _ s
                (on_storage-Ends tables _ s s a a (IsAt-self tables s a held)
                  (get_last_log_index-Ends sql tables laws a s.storage held))
                λ last u r. rw r.0 (
                  Ends-bind _ _ u
                    (on_storage-Ends tables _ s u a a r.1
                      (get_log_entries-Ends sql tables laws a u.storage r.1.held k))
                    λ es v z.
                      let before : suc k - 1 ≡ k = omega arith in
                      rw (z.0, before)
                        (Ends-bind _ _ v (previous_term-Ends k s v a z.1 fits) λ term w y. rw y.0 (
                          Ends-bind _ _ w
                            (Ends-gets {Q = λ m x. (m ≡ term_of s) × (x ≡ w)} term_of w
                              (ap term_of y.1.same, refl))
                            λ m x p.
                              rw (p.0, p.1)
                                (Ends-bind _ _ w
                                  (on_storage-Ends tables _ s w a a y.1
                                    (get_commit_index-Ends sql tables laws a w.storage y.1.held))
                                  λ commit f g. rw g.0 (
                                    Ends-bind _ _ f (own-Ends f g.1)
                                      λ b h o. rw o.0 (after-Ends h o.1)))))))
