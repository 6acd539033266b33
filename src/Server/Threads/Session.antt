-- ===== src/Server/Threads/Session.antt =====
-- Requests that do not overlap, at a leader without peers: the server is a map.
use scalable_key_value_store.Prelude.{
  suc, ◌≡◌, refl, ap, sym, ◌∙◌, true, List, [], ◌∷◌, ◌++◌, length, take-ge, length-append, arith,
}
use scalable_key_value_store.Server.Java.{Exec, pure, ◌>>=◌}
use scalable_key_value_store.Server.Java.Laws.{Ends, Ends-bind, Ends-pure, Ends-gets}
use scalable_key_value_store.Server.Sql.{Text, LogEntry, Engine}
use scalable_key_value_store.Server.Storage.Sqlite.{Tables, IsSqlite, set_value}
use scalable_key_value_store.Server.Storage.Refines.{Store, encode, get-Ends}
use scalable_key_value_store.Server.RaftState.{is_leader}
use scalable_key_value_store.Server.Raft.{RaftNode}
use scalable_key_value_store.Server.Replication.Spec.{
  Values, IsConsistent, apply_entries, empty_values, apply_entries-append,
}
use scalable_key_value_store.Server.Replication.Frame.{IsAt, IsAt-self, on_storage-Ends}
use scalable_key_value_store.Server.Service
use scalable_key_value_store.Server.Service.{get_response, put_response}
use scalable_key_value_store.Server.Service.Alone.{committed, proposal, put_alone-Ends}
use scalable_key_value_store.Server.Threads.Perform.{alone}
use scalable_key_value_store.Server.Threads.Pool.{
  Request, put_request, get_request, election_request, Reply, put_reply, get_reply, no_reply,
  program,
}
use scalable_key_value_store.Server.Threads.Requests.{whole, alone-program}

-- What a map from keys to values replies, and becomes.
unfoldable pub map_reply : Request → Values → Reply × Values
map_reply (put_request random key value) m = (put_reply (put_response true), set_value key value m)
map_reply (get_request key) m = (get_reply (get_response (m key)), m)
map_reply election_request m = (no_reply, m)

unfoldable pub map_serve : List Request → Values → List Reply × Values
map_serve [] m = ([], m)
map_serve (r ∷ rs) m =
    let (x, m') = map_reply r m in let (xs, m'') = map_serve rs m' in (x ∷ xs, m'')

module _ {D : Type 0} (sql : Engine D) where
  -- Each thread runs to its end before the next request arrives.
  unfoldable pub serve : List Request → Exec (RaftNode D) (List Reply)
  serve [] = pure []
  serve (r ∷ rs) = do x ← alone sql (program r); xs ← serve rs; pure (x ∷ xs)

  module _ (tables : D → Tables) (laws : IsSqlite sql tables) where
    -- A leader without peers that has applied its whole log.
    pub record IsServing (s : RaftNode D) (m : Values) : Type 0 where
      pub store : Store
      pub held : tables s.storage ≡ encode store
      pub no_peers : s.peers ≡ []
      pub leads : is_leader s.state ≡ true
      pub consistent : IsConsistent store
      pub applied : store.last_applied ≡ length store.log
      pub values : store.key_values ≡ m

    at-IsServing :
        (s u : RaftNode D) (m m' : Values) (b : Store)
        → IsServing s m
        → IsAt tables s b u
        → IsConsistent b
        → b.last_applied ≡ length b.log
        → b.key_values ≡ m'
        → IsServing u m'
    at-IsServing s u m m' b h at c all values = record {
      store = b;
      held = at.held;
      no_peers = ap (λ (v : RaftNode D). v.peers) at.same ∙ h.no_peers;
      leads = ap (λ (v : RaftNode D). is_leader v.state) at.same ∙ h.leads;
      consistent = c;
      applied = all;
      values = values;
    }

    -- A log that is applied with one more entry.
    written :
        (a : Store) (e : LogEntry)
        → IsConsistent a
        → a.last_applied ≡ length a.log
        → (committed a e).key_values ≡ set_value e.key e.value a.key_values
    unfolding apply_entries
    written a e c all =
        ap (λ l. apply_entries l empty_values)
          (take-ge (suc (length a.log)) (a.log ++ e ∷ [])
            (omega (arith, length-append a.log (e ∷ []))))
        ∙ apply_entries-append a.log (e ∷ []) empty_values
        ∙ ap (set_value e.key e.value) (
            ap (λ l. apply_entries l empty_values)
              (sym (take-ge a.last_applied a.log (omega (arith, all))))
            ∙ sym c.replayed)

    get-IsServing :
        (key : Text) (s : RaftNode D) (m : Values)
        → IsServing s m
        → Ends (Service.get sql key) s (λ r u. (r ≡ get_response (m key)) × IsServing u m)
    unfolding Service.get
    get-IsServing key s m h =
        Ends-bind _ _ s
          (on_storage-Ends tables _ s s h.store h.store (IsAt-self tables s h.store h.held)
            (get-Ends sql tables laws h.store s.storage h.held key))
          λ o u q. Ends-pure _ u (
            ap get_response (q.0 ∙ ap (λ f. f key) h.values),
            at-IsServing s u m m h.store h q.1 h.consistent h.applied h.values,
          )

    whole-IsServing :
        (r : Request) (s : RaftNode D) (m : Values)
        → IsServing s m
        → Ends (whole sql r) s (λ x u. (x ≡ (map_reply r m).0) × IsServing u (map_reply r m).1)
    unfolding map_reply
    whole-IsServing (put_request random key value) s m h =
        let e = proposal s key value in
        let len : length (h.store.log ++ e ∷ []) ≡ suc (length h.store.log) =
          omega (arith, length-append h.store.log (e ∷ [])) in
        Ends-bind _ _ s
          (put_alone-Ends sql tables laws random key value s h.store h.held h.leads h.no_peers
            h.consistent)
          λ x u q. Ends-pure _ u (
            ap put_reply q.0,
            at-IsServing s u m _ (committed h.store e) h q.1
                (record { applied = omega arith; committed = omega (arith, len); replayed = refl })
                (sym len)
                (written h.store e h.consistent h.applied ∙ ap (set_value key value) h.values),
          )
    whole-IsServing (get_request key) s m h =
        Ends-bind _ _ s (get-IsServing key s m h) λ r u q. Ends-pure _ u (ap get_reply q.0, q.1)
    whole-IsServing election_request s m h =
        Ends-bind _ _ s
          (Ends-bind {Q = λ b u. (b ≡ true) × (u ≡ s)} {R = λ _ u. u ≡ s} _ _ s
            (Ends-gets _ s (h.leads, refl)) λ b u q. rw (q.0, q.1) (Ends-pure tt s refl))
          λ _ u e. rw e (Ends-pure no_reply s (refl, h))

    program-IsServing :
        (r : Request) (s : RaftNode D) (m : Values)
        → IsServing s m
        → Ends
            (alone sql (program r))
            s
            (λ x u. (x ≡ (map_reply r m).0) × IsServing u (map_reply r m).1)
    program-IsServing r s m h =
        let e = whole-IsServing r s m h in
        record {
          result = e.result;
          state = e.state;
          runs = alone-program sql r s ∙ e.runs;
          holds = e.holds;
        }

    -- A leader without peers that has applied its whole log replies to PUTs and GETs that do not
    -- overlap as a map from keys to values does, and holds the map that comes out; election tasks
    -- in between change nothing. No statement fails on the connection, and at the start the
    -- counters were in order and the table was what the applied entries write.
    pub serve-IsServing :
        (rs : List Request) (s : RaftNode D) (m : Values)
        → IsServing s m
        → Ends (serve rs) s (λ xs u. (xs ≡ (map_serve rs m).0) × IsServing u (map_serve rs m).1)
    unfolding serve map_serve
    serve-IsServing [] s m h = Ends-pure [] s (refl, h)
    serve-IsServing (r ∷ rs) s m h = Ends-bind _ _ s (program-IsServing r s m h) λ x u q.
        Ends-bind _ _ u (serve-IsServing rs u (map_reply r m).1 q.1)
          λ xs v k. Ends-pure _ v (rw (q.0, k.0) refl, k.1)
