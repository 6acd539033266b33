-- ===== src/Server/Threads/Access.antt =====
-- Every access of a thread keeps the node in order, and its answer tells what the thread relies on.
use scalable_key_value_store.Prelude.{
  ℕ, zero, suc, ◌-◌, ◌≡◌, refl, ap, sym, ◌∙◌, subst, [], ◌∷◌, ◌++◌, length, get_elem?, arith,
}
use scalable_key_value_store.Server.Java.Laws.{Ends, Ends-mono, Ends-modify}
use scalable_key_value_store.Server.Sql.{LogEntry, Engine}
use scalable_key_value_store.Server.Storage.Sqlite.{Tables, IsSqlite, set_value}
use scalable_key_value_store.Server.Storage.Refines.{
  Store, append_log_entry-Ends, get_log_entry-Ends, get_last_log_index-Ends, get_commit_index-Ends,
  set_commit_index-Ends, get_last_applied-Ends, set_last_applied-Ends, update_key_value-Ends,
  get-Ends,
}
use scalable_key_value_store.Server.Raft.{RaftNode}
use scalable_key_value_store.Server.Election.{lead_peers}
use scalable_key_value_store.Server.Replication.Frame.{on_storage-Ends}
use scalable_key_value_store.Server.Service.Alone.{last_elem}
use scalable_key_value_store.Server.Threads.Calls.{
  Call, Answer, read_leads, read_term, read_peers, read_replicated, write_role, write_term,
  write_vote, write_indices, send, get_last_log_index, get_log_entry, append_log_entry,
  get_commit_index, set_commit_index, get_last_applied, set_last_applied, update_key_value,
  get_value,
}
use scalable_key_value_store.Server.Threads.Perform.{perform, set_role, set_term, set_vote}
use scalable_key_value_store.Server.Threads.Guard.{Extends-refl, IsAllowed, IsTold}
use scalable_key_value_store.Server.Threads.Orderly.{
  IsOrderly, IsDone, at, at-IsOrderly, reads-IsDone, gets-IsDone, writes-IsDone, kept-IsOrderly,
  appended-IsOrdered, set_value-IsOrdered,
}

lead_nobody :
    {D : Type 0} (last : ℕ) (s : RaftNode D) → s.peers ≡ [] → lead_peers last s.peers s ≡ s
unfolding lead_peers
lead_nobody last s h = subst (λ ps. lead_peers last ps s ≡ s) (sym h) refl

module _ {D : Type 0} (sql : Engine D) (tables : D → Tables) (laws : IsSqlite sql tables)
    (s : RaftNode D) (a : Store) (h : IsOrderly tables s a) where
  abbrev Done : (c : Call) → Answer c → RaftNode D → Type 0
  Done c = IsDone tables c a

  kept-IsDone :
      (c : Call) (x : Answer c) (t : RaftNode D)
      → t.storage ≡ s.storage
      → t.peers ≡ s.peers
      → IsTold c x a.log
      → Done c x t
  kept-IsDone c x t same_storage same_peers told = record {
    store = a;
    orderly = kept-IsOrderly sql tables laws s a h t same_storage same_peers;
    grown = Extends-refl a.log;
    told = told;
  }

  append-IsDone :
      (e : LogEntry) → Ends (perform sql (append_log_entry e)) s (Done (append_log_entry e))
  unfolding perform
  append-IsDone e =
      Ends-mono
        (on_storage-Ends tables _ s s a (record a { log = a.log ++ e ∷ [] })
          (at sql tables laws s a h) (append_log_entry-Ends sql tables laws a s.storage h.held e))
        λ n u q. record {
          store = record a { log = a.log ++ e ∷ [] };
          orderly = at-IsOrderly tables s u a _ h q.1 (appended-IsOrdered a e h.ordered);
          grown = record { more = e ∷ []; joined = refl };
          told = record {
            place = length a.log;
            entry = e;
            stands = last_elem a.log e;
            of_key = refl;
            of_value = refl;
          };
        }

  -- What is allowed is done: the access returns, the log is as it was or longer, and all is in
  -- order as before.
  pub perform-IsDone : (c : Call) → IsAllowed c a.log → Ends (perform sql c) s (Done c)
  unfolding perform set_role set_term set_vote
  perform-IsDone read_leads ok = gets-IsDone sql tables laws s a h read_leads _ tt
  perform-IsDone read_term ok = gets-IsDone sql tables laws s a h read_term _ tt
  perform-IsDone read_peers ok = gets-IsDone sql tables laws s a h read_peers _ h.no_peers
  perform-IsDone (read_replicated n) ok = gets-IsDone sql tables laws s a h (read_replicated n) _ tt
  perform-IsDone (write_role role) ok =
      Ends-modify _ s (kept-IsDone (write_role role) tt _ refl refl tt)
  perform-IsDone (write_term term) ok =
      Ends-modify _ s (kept-IsDone (write_term term) tt _ refl refl tt)
  perform-IsDone write_vote ok = Ends-modify _ s (kept-IsDone write_vote tt _ refl refl tt)
  perform-IsDone (write_indices last) ok =
      let e = lead_nobody last s h.no_peers in
      Ends-modify _ s (
        kept-IsDone (write_indices last) tt _ (ap (λ (t : RaftNode D). t.storage) e)
          (ap (λ (t : RaftNode D). t.peers) e) tt)
  perform-IsDone (send delay peer) ok = absurd ok
  perform-IsDone get_last_log_index ok =
      reads-IsDone sql tables laws s a h get_last_log_index (λ n. n ≡ length a.log) _
        (get_last_log_index-Ends sql tables laws a s.storage h.held) λ n e. e
  perform-IsDone (get_log_entry zero) ok = absurd (omega arith)
  perform-IsDone (get_log_entry (suc n)) ok =
      let e : suc n - 1 ≡ n = omega arith in
      reads-IsDone sql tables laws s a h (get_log_entry (suc n)) (λ o. o ≡ get_elem? a.log n) _
        (get_log_entry-Ends sql tables laws a s.storage h.held n)
        λ o q. q ∙ ap (get_elem? a.log) (sym e)
  perform-IsDone (append_log_entry e) ok = append-IsDone e
  perform-IsDone get_commit_index ok =
      reads-IsDone sql tables laws s a h get_commit_index (λ n. n ≡ a.commit_index) _
        (get_commit_index-Ends sql tables laws a s.storage h.held)
        λ n e. omega (arith, e, h.ordered.committed)
  perform-IsDone (set_commit_index n) ok =
      writes-IsDone sql tables laws s a h (set_commit_index n) (record a { commit_index = n }) _
        (set_commit_index-Ends sql tables laws a s.storage h.held n)
        (record { committed = ok; applied = h.ordered.applied; written = h.ordered.written })
        (Extends-refl a.log) λ x. tt
  perform-IsDone get_last_applied ok =
      reads-IsDone sql tables laws s a h get_last_applied (λ n. n ≡ a.last_applied) _
        (get_last_applied-Ends sql tables laws a s.storage h.held)
        λ n e. omega (arith, e, h.ordered.applied)
  perform-IsDone (set_last_applied n) ok =
      writes-IsDone sql tables laws s a h (set_last_applied n) (record a { last_applied = n }) _
        (set_last_applied-Ends sql tables laws a s.storage h.held n)
        (record { committed = h.ordered.committed; applied = ok; written = h.ordered.written })
        (Extends-refl a.log) λ x. tt
  perform-IsDone (update_key_value k v) ok =
      writes-IsDone sql tables laws s a h (update_key_value k v)
        (record a { key_values = set_value k v a.key_values }) _
        (update_key_value-Ends sql tables laws a s.storage h.held k v)
        (set_value-IsOrdered k v a ok h.ordered) (Extends-refl a.log) λ x. tt
  perform-IsDone (get_value k) ok =
      reads-IsDone sql tables laws s a h (get_value k) (λ o. o ≡ a.key_values k) _
        (get-Ends sql tables laws a s.storage h.held k) λ o e v q. h.ordered.written k v (sym e ∙ q)
