-- ===== src/Client/Connection/Lifetime.antt =====
-- The life of a connection object: what the constructor opens and what the destructor closes.
-- The destructor reads `g_num_servers`, which is a global that every constructor sets.
use scalable_key_value_store.Prelude.{
  ℕ, zero, suc, ◌≤◌, ◌<◌, ◌≡◌, refl, sym, ap, ◌∙◌, Option, none, List, [], ◌∷◌, some, arith, length,
  take, take-length,
}
use scalable_key_value_store.Client.Cpp.{Text, Outcome, returns, undefined, modify, pure, ◌>>=◌}
use scalable_key_value_store.Client.Cpp.Laws.{Keeps, Keeps-pure, Keeps-bind, keeps_rules}
use scalable_key_value_store.Client.Rpc.{Rpc}
use scalable_key_value_store.Client.Connection.{
  KvstoreRpcClient, Process, host_addrs, lift, open_servers, connect, close_servers, disconnect,
  release, assign_client, reconnect,
}

module _ {W S A : Type 0} (m : W → Outcome A × W) where
  pub lift-Keeps-count : Keeps (λ s. s.g_num_servers) (lift {S = S} m)
  unfolding lift
  lift-Keeps-count = record { at = λ s. refl }

  pub lift-Keeps-client : Keeps (λ s. s.kv_client) (lift {S = S} m)
  unfolding lift
  lift-Keeps-client = record { at = λ s. refl }

  pub lift-Keeps-leader : Keeps (λ s. s.current_leader) (lift {S = S} m)
  unfolding lift
  lift-Keeps-leader = record { at = λ s. refl }

module _ {W S : Type 0} (rpc : Rpc W S) where
  -- the stubs closed one by one
  abbrev pub close_all : List S → W → W
  close_all [] w = w
  close_all (stub ∷ stubs) w = close_all stubs (rpc.close_stub stub w)

  open_servers-Keeps-count :
      (hosts : List Text) → Keeps (λ s. s.g_num_servers) (open_servers rpc hosts)
  unfolding open_servers
  open_servers-Keeps-count [] = search keeps_rules
  open_servers-Keeps-count (host ∷ hosts) =
      let ih = open_servers-Keeps-count hosts in search (keeps_rules, lift-Keeps-count) depth 8

  open_servers-Keeps-client :
      (hosts : List Text) → Keeps (λ s. s.kv_client) (open_servers rpc hosts)
  unfolding open_servers
  open_servers-Keeps-client [] = search keeps_rules
  open_servers-Keeps-client (host ∷ hosts) =
      let ih = open_servers-Keeps-client hosts in search (keeps_rules, lift-Keeps-client) depth 8

  open_servers-Keeps-leader :
      (hosts : List Text) → Keeps (λ s. s.current_leader) (open_servers rpc hosts)
  unfolding open_servers
  open_servers-Keeps-leader [] = search keeps_rules
  open_servers-Keeps-leader (host ∷ hosts) =
      let ih = open_servers-Keeps-leader hosts in search (keeps_rules, lift-Keeps-leader) depth 8

  close_servers-Keeps-leader :
      (n : ℕ) (stubs : List S) → Keeps (λ s. s.current_leader) (close_servers rpc n stubs)
  unfolding close_servers modify
  close_servers-Keeps-leader zero stubs = search keeps_rules
  close_servers-Keeps-leader (suc n) [] = search keeps_rules
  close_servers-Keeps-leader (suc n) (stub ∷ stubs) =
      Keeps-bind _ _ (record { at = λ s. refl }) λ _. close_servers-Keeps-leader n stubs

  assign_client-Keeps-leader :
      (new : Option (KvstoreRpcClient S)) → Keeps (λ s. s.current_leader) (assign_client rpc new)
  unfolding assign_client pure
  assign_client-Keeps-leader new = record {
    at = λ s. release-leader s.kv_client (record s { kv_client = new });
  }
    where
      release-leader :
          (old : Option (KvstoreRpcClient S)) (s : Process W S)
          → (release rpc old s).1.current_leader ≡ s.current_leader
      release-leader none s = refl
      release-leader (some old) s = (close_servers-Keeps-leader s.g_num_servers old.servers).at s

  -- To connect does not change which server is taken for the leader.
  pub reconnect-Keeps-leader : (hosts : Text) → Keeps (λ s. s.current_leader) (reconnect rpc hosts)
  unfolding reconnect connect modify
  reconnect-Keeps-leader hosts =
      Keeps-bind _ _
        (Keeps-bind _ _ (record { at = λ s. refl })
          λ _. Keeps-bind _ _ (open_servers-Keeps-leader (host_addrs hosts)) λ stubs. Keeps-pure _)
        λ client. assign_client-Keeps-leader (some client)

  open_servers-length :
      (hosts : List Text) (s : Process W S) (stubs : List S)
      → (open_servers rpc hosts s).0 ≡ returns stubs
      → length stubs ≡ length hosts
  unfolding open_servers ◌>>=◌ lift
  open_servers-length [] s stubs e = ground arith
  open_servers-length (host ∷ hosts) s stubs e = grind (arith, open_servers-length hosts)

  close_servers-take :
      (n : ℕ) (stubs : List S) (s : Process W S)
      → n ≤ length stubs
      → close_servers rpc n stubs s
        ≡ (returns tt, record s { world = close_all (take n stubs) s.world })
  unfolding close_servers ◌>>=◌
  close_servers-take zero stubs s h = refl
  close_servers-take (suc n) [] s h = absurd (omega arith)
  close_servers-take (suc n) (stub ∷ stubs) s h = close_servers-take n stubs _ (omega arith)

  close_servers-undefined :
      (n : ℕ) (stubs : List S) (s : Process W S)
      → length stubs < n
      → (close_servers rpc n stubs s).0 ≡ undefined
  unfolding close_servers ◌>>=◌
  close_servers-undefined zero stubs s h = absurd (omega arith)
  close_servers-undefined (suc n) [] s h = refl
  close_servers-undefined (suc n) (stub ∷ stubs) s h =
      close_servers-undefined n stubs _ (omega arith)

  -- A connection that was made has one stub for each host, in `g_num_servers` too, and is not yet
  -- the process's client.
  pub connect-returns :
      (hosts : Text) (s : Process W S) (client : KvstoreRpcClient S)
      → (connect rpc hosts s).0 ≡ returns client
      → (length client.servers ≡ length (host_addrs hosts))
        × ((connect rpc hosts s).1.g_num_servers ≡ length (host_addrs hosts))
        × ((connect rpc hosts s).1.kv_client ≡ s.kv_client)
  unfolding connect ◌>>=◌
  connect-returns hosts s client e =
      let t : Process W S = record s { g_num_servers = length (host_addrs hosts) } in
      ground (
        arith,
        open_servers-length (host_addrs hosts) t client.servers,
        (open_servers-Keeps-count (host_addrs hosts)).at t,
        (open_servers-Keeps-client (host_addrs hosts)).at t,
      )

  -- A connection that is destroyed right after it was made closes each of its stubs, once and in
  -- order, and changes nothing else.
  pub disconnect-connect :
      (hosts : Text) (s : Process W S) (client : KvstoreRpcClient S)
      → (connect rpc hosts s).0 ≡ returns client
      → let made = (connect rpc hosts s).1 in
        disconnect rpc client made
        ≡ (returns tt, record made { world = close_all client.servers made.world })
  unfolding disconnect
  disconnect-connect hosts s client e =
      let made = (connect rpc hosts s).1 in
      let (counted, count, _) = connect-returns hosts s client e in
      ap (λ n. close_servers rpc n client.servers made) (count ∙ sym counted)
      ∙ close_servers-take (length client.servers) client.servers made (omega arith)
      ∙ ap (λ stubs. (returns tt, record made { world = close_all stubs made.world }))
          (take-length client.servers)

  -- A client that connects to more hosts than its present connection has is undefined behaviour:
  -- the old object is destroyed under the new object's `g_num_servers`.
  pub reconnect_more_hosts :
      (hosts : Text) (s : Process W S) (old new : KvstoreRpcClient S)
      → s.kv_client ≡ some old
      → (connect rpc hosts s).0 ≡ returns new
      → length old.servers < length (host_addrs hosts)
      → (reconnect rpc hosts s).0 ≡ undefined
  unfolding reconnect assign_client ◌>>=◌
  reconnect_more_hosts hosts s old new held made more =
      let (_, count, kept) = connect-returns hosts s new made in
      rw (made, reconnect)
        (rw (kept ∙ held, assign_client)
          (rw count (close_servers-undefined (length (host_addrs hosts)) old.servers _ more)))

  -- A client that connects to at most as many hosts as its present connection has closes that many
  -- stubs of the old connection, in order, and holds the new one. What is left of the old
  -- connection is not closed.
  pub reconnect_closes :
      (hosts : Text) (s : Process W S) (old new : KvstoreRpcClient S)
      → s.kv_client ≡ some old
      → (connect rpc hosts s).0 ≡ returns new
      → length (host_addrs hosts) ≤ length old.servers
      → let made = (connect rpc hosts s).1 in
        reconnect rpc hosts s ≡ (
          returns tt,
          record made {
            kv_client = some new;
            world = close_all (take (length (host_addrs hosts)) old.servers) made.world;
          },
        )
  unfolding reconnect assign_client ◌>>=◌
  reconnect_closes hosts s old new held made fits =
      let (_, count, kept) = connect-returns hosts s new made in
      rw (made, reconnect)
        (rw (kept ∙ held, assign_client)
          (rw count (close_servers-take (length (host_addrs hosts)) old.servers _ fits)))
