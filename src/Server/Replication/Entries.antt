-- ===== src/Server/Replication/Entries.antt =====
-- The loop of `appendEntries` over the new entries.
use scalable_key_value_store.Prelude.{
  ℕ, suc, ◌≤◌, ◌<◌, ◌≡◌, refl, ap, sym, subst, ◌∙◌, false, List, [], ◌∷◌, ◌++◌, arith, length, take,
  drop, ◌==◌, leb, Bool-cases, inl, inr, length-append, length-take, take-ge, drop-ge,
  take-append-drop, leb→le,
}
use mathlib.Core.List.{append_assoc}
use scalable_key_value_store.Server.Java.{pure, ◌>>=◌}
use scalable_key_value_store.Server.Java.Laws.{Ends, Ends-bind, Ends-pure, Ends-mono}
use scalable_key_value_store.Server.Sql.{LogEntry, Engine}
use scalable_key_value_store.Server.Raft.{RaftNode, on_storage}
use scalable_key_value_store.Server.Storage
use scalable_key_value_store.Server.Storage.Sqlite.{Tables, IsSqlite}
use scalable_key_value_store.Server.Storage.Refines.{
  Store, append_log_entry-Ends, delete_log_entries_from-Ends, get_last_log_index-Ends,
}
use scalable_key_value_store.Server.Replication.{term_at, replace_entry, store_entry, store_entries}
use scalable_key_value_store.Server.Replication.Spec.{spliced, reconcile, reconcile-old, splice_end}
use scalable_key_value_store.Server.Replication.Frame.{IsAt, on_storage-Ends, on_storage_unit-Ends}
use scalable_key_value_store.Server.Replication.Apply.{IsRead, read-Ends}

full : (k n : ℕ) → k ≤ n → leb (suc k) n ≡ false → n ≡ k
full k n h e = ground arith

module _ {D : Type 0} (sql : Engine D) (tables : D → Tables) (laws : IsSqlite sql tables) where
  -- the term of an entry that the log has
  pub term_at-Ends :
      (s t : RaftNode D) (a : Store) (n : ℕ)
      → IsAt tables s a t
      → n < length a.log
      → Ends
          (term_at sql (suc n))
          t
          (λ term u. (e : LogEntry) × (term ≡ e.term) × IsRead sql tables laws s a n e u)
  unfolding term_at
  term_at-Ends s t a n at below =
      read-Ends sql tables laws _ s t a n at below λ e u r. Ends-pure e.term u (e, refl, r)

  append_end :
      (s t : RaftNode D) (a : Store) (e : LogEntry)
      → IsAt tables s a t
      → Ends
          (on_storage (Storage.append_log_entry sql e) >>= λ _. pure tt)
          t
          (λ _ u. IsAt tables s (record a { log = a.log ++ e ∷ [] }) u)
  append_end s t a e at =
      Ends-bind _ _ t
        (on_storage-Ends tables _ s t a (record a { log = a.log ++ e ∷ [] }) at
          (append_log_entry-Ends sql tables laws a t.storage at.held e))
        λ n u q. Ends-pure tt u q.1

  -- What one entry does to a log that reaches up to it.
  abbrev IsStored : RaftNode D → Store → ℕ → LogEntry → RaftNode D → Type 0
  IsStored s a k e u =
      (b : Store) × IsAt tables s b u
      × (suc k ≤ length b.log)
      × ((es : List LogEntry)
          → spliced b (suc k) (reconcile (drop (suc k) b.log) es)
            ≡ spliced a k (reconcile (drop k a.log) (e ∷ es)))

  -- The entry goes to the end of a log of `k` entries.
  ended :
      (s u : RaftNode D) (a c : Store) (k : ℕ) (e : LogEntry)
      → c ≡ record a { log = c.log }
      → length c.log ≡ k
      → IsAt tables s (record c { log = c.log ++ e ∷ [] }) u
      → ((es : List LogEntry) → c.log ++ e ∷ es ≡ take k a.log ++ reconcile (drop k a.log) (e ∷ es))
      → IsStored s a k e u
  ended s u a c k e same full at spliced_eq = (
    record c { log = c.log ++ e ∷ [] },
    at,
    omega (arith, length-append c.log (e ∷ [])),
    λ es.
        ap (λ l. record c { log = l }) (splice_end k c.log e es full ∙ spliced_eq es)
        ∙ ap (λ (d : Store). record d { log = take k a.log ++ reconcile (drop k a.log) (e ∷ es) })
            same,
  )

  append_behind :
      (s t : RaftNode D) (a : Store) (k : ℕ) (e : LogEntry)
      → IsAt tables s a t
      → length a.log ≡ k
      → Ends
          (on_storage (Storage.append_log_entry sql e) >>= λ _. pure tt)
          t
          (λ _ u. IsStored s a k e u)
  unfolding reconcile
  append_behind s t a k e at whole = Ends-mono (append_end s t a e at) λ _ u q.
      ended s u a a k e refl whole q
        λ es. sym (rw (take-ge k a.log (omega arith), drop-ge k a.log (omega arith)) refl)

  replace-Ends :
      (s t : RaftNode D) (a : Store) (k : ℕ) (o e : LogEntry)
      → k < length a.log
      → IsRead sql tables laws s a k o t
      → Ends (replace_entry sql (suc k) e o.term) t (λ _ u. IsStored s a k e u)
  unfolding replace_entry reconcile
  replace-Ends s t a k o e below (found, behind, front, at) = elim (Bool-cases (o.term == e.term)) [
    | inl agree ↦ rw agree (
        Ends-pure tt t (
          a,
          at,
          below,
          λ es. ap (λ l. record a { log = l }) (rw (behind, front, agree, append_assoc) refl),
        ))
    | inr differ ↦ rw differ (
        let c : Store = record a { log = take k a.log } in
        Ends-bind _ _ t
          (on_storage_unit-Ends tables _ s t a c at
            (delete_log_entries_from-Ends sql tables laws a t.storage at.held k))
          λ _ u cut. Ends-mono (append_end s u c e cut) λ _ v q.
            ended s v a c k e refl (omega (arith, length-take k a.log)) q
              λ es. sym (rw (behind, differ) refl))
  ]

  store_entry-Ends :
      (s t : RaftNode D) (a : Store) (k : ℕ) (e : LogEntry)
      → IsAt tables s a t
      → k ≤ length a.log
      → Ends (store_entry sql (suc k) e (length a.log)) t (λ _ u. IsStored s a k e u)
  unfolding store_entry
  store_entry-Ends s t a k e at fits = elim (Bool-cases (leb (suc k) (length a.log))) [
    | inl inside ↦ rw inside (
        let below : k < length a.log = leb→le (suc k) (length a.log) inside in
        Ends-bind _ _ t (term_at-Ends s t a k at below)
          λ term u q. rw q.1 (replace-Ends s u a k q.0 e below q.2))
    | inr outside ↦ rw outside (append_behind s t a k e at (full k (length a.log) fits outside))
  ]

  -- On a connection on which no statement fails, and for a log that reaches up to the new entries,
  -- the loop keeps the entries of the log as long as the terms agree, and replaces the first that
  -- does not agree and all that follow.
  pub store_entries-Ends :
      (es : List LogEntry) (s t : RaftNode D) (a : Store) (k : ℕ)
      → IsAt tables s a t
      → k ≤ length a.log
      → Ends
          (store_entries sql (suc k) es)
          t
          (λ _ u. IsAt tables s (spliced a k (reconcile (drop k a.log) es)) u)
  unfolding store_entries
  store_entries-Ends [] s t a k at fits = Ends-pure tt t (
      subst (λ st. IsAt tables s st t)
        (ap (λ l. record a { log = l })
          (sym (take-append-drop k a.log)
            ∙ ap (λ r. take k a.log ++ r) (sym (reconcile-old (drop k a.log)))))
        at)
  store_entries-Ends (e ∷ es) s t a k at fits =
      Ends-bind _ _ t
        (on_storage-Ends tables _ s t a a at
          (get_last_log_index-Ends sql tables laws a t.storage at.held))
        λ n u q. rw q.0 (
          Ends-bind _ _ u (store_entry-Ends s u a k e q.1 fits) λ _ v (b, bt, room, eq).
            Ends-mono (store_entries-Ends es s v b (suc k) bt room)
              λ _ w z. subst (λ st. IsAt tables s st w) (eq es) z)
