-- ===== src/Client/Api/Init.antt =====
-- `kv739_init`: the search for the leader.
use mathlib.Core.List.{Mem, mem-cons_self, mem-cons_of_mem}
use scalable_key_value_store.Prelude.{
  ◌≡◌, refl, ap, ◌∙◌, Bool, true, false, some, ℤ, pos, List, [], ◌∷◌, ◌++◌, arith, if◌then◌else◌,
}
use scalable_key_value_store.Client.Cpp.{
  Text, CharArray, c_string, Outcome, returns, throws, undefined, ◌>>=◌, try_catch, Exec, continue,
  pure,
}
use scalable_key_value_store.Client.Rpc.{Rpc}
use scalable_key_value_store.Client.Connection.Lifetime.{reconnect-Keeps-leader}
use scalable_key_value_store.Client.Connection.{Process, lift}
use scalable_key_value_store.Client.Api.{
  minus_one, catch_std, note_leader, probe, init_loop, kv739_init,
}

module _ {W S : Type 0} (rpc : Rpc W S) where
  -- The servers in front of the leader: each is asked, and says no or fails.
  pub data Skips : List Text → Process W S → Process W S → Type 0 where
    stay : (s : Process W S) → Skips [] s s
    skip :
        (server : Text) {servers : List Text} (s t u : Process W S)
        → try_catch (probe rpc server) (catch_std rpc false) s ≡ (returns false, t)
        → Skips servers t u
        → Skips (server ∷ servers) s u

  init_loop-append :
      {before : List Text} {s t : Process W S} (after : List Text)
      → Skips before s t
      → init_loop rpc (before ++ after) s ≡ init_loop rpc after t
  unfolding init_loop ◌>>=◌
  init_loop-append after (stay s) = refl
  init_loop-append after (skip server s t u e rest) =
      rw (e, init_loop) (init_loop-append after rest)

  abbrev attempt : Text → Process W S → Outcome Bool × Process W S
  attempt server = try_catch (probe rpc server) (catch_std rpc false)

  -- The server of an attempt that ends the search is the leader from then on.
  attempt_leader :
      (server : Text) (s : Process W S)
      → (attempt server s).0 ≡ returns true
      → (attempt server s).1.current_leader ≡ server
  unfolding probe note_leader ◌>>=◌
  attempt_leader server s e = ground arith

  attempt_no_leader :
      (server : Text) (s : Process W S)
      → (attempt server s).0 ≡ returns false
      → (attempt server s).1.current_leader ≡ s.current_leader
  unfolding probe note_leader lift ◌>>=◌
  attempt_no_leader server s e = ground (arith, (reconnect-Keeps-leader rpc server).at s)

  -- what the loop does after an attempt
  abbrev next : Exec (Process W S) ℤ → Bool → Exec (Process W S) ℤ
  next rest found = if found then pure (pos 0) else rest

  next_cases :
      (P : Process W S → Type 0) (rest : Exec (Process W S) ℤ) (code : ℤ) (r : Outcome Bool)
      (t : Process W S)
      → (continue r (next rest) t).0 ≡ returns code
      → (r ≡ returns true → code ≡ pos 0 → P t)
      → (r ≡ returns false → (rest t).0 ≡ returns code → P (rest t).1)
      → P (continue r (next rest) t).1
  unfolding pure
  next_cases P rest code (returns true) t e hit miss = hit refl (ground arith)
  next_cases P rest code (returns false) t e hit miss = miss refl e
  next_cases P rest code (throws x) t e hit miss = absurd (cc)
  next_cases P rest code undefined t e hit miss = absurd (cc)

  init_loop_leader :
      (servers : List Text) (s : Process W S)
      → (init_loop rpc servers s).0 ≡ returns (pos 0)
      → Mem (init_loop rpc servers s).1.current_leader servers
  unfolding init_loop ◌>>=◌
  init_loop_leader [] s e = absurd (ground arith)
  init_loop_leader (server ∷ servers) s e =
      next_cases (λ t. Mem t.current_leader (server ∷ servers)) (init_loop rpc servers) (pos 0)
        (attempt server s).0 (attempt server s).1 e
        (λ hit _. rw (attempt_leader server s hit) mem-cons_self)
        λ _ found. mem-cons_of_mem server (init_loop_leader servers (attempt server s).1 found)

  init_loop_no_leader :
      (servers : List Text) (s : Process W S)
      → (init_loop rpc servers s).0 ≡ returns minus_one
      → (init_loop rpc servers s).1.current_leader ≡ s.current_leader
  unfolding init_loop ◌>>=◌
  init_loop_no_leader [] s e = refl
  init_loop_no_leader (server ∷ servers) s e =
      next_cases (λ t. t.current_leader ≡ s.current_leader) (init_loop rpc servers) minus_one
        (attempt server s).0 (attempt server s).1 e (λ _ absent. absurd (cc))
        λ missed none_found.
          init_loop_no_leader servers (attempt server s).1 none_found
          ∙ attempt_no_leader server s missed

  loop_found :
      (server : Text) (after : List Text) (t u : Process W S)
      → probe rpc server t ≡ (returns true, u)
      → init_loop rpc (server ∷ after) t ≡ (returns (pos 0), u)
  unfolding init_loop ◌>>=◌
  loop_found server after t u e = rw (e, init_loop)

  probe_leader :
      (server : Text) (t u : Process W S)
      → probe rpc server t ≡ (returns true, u)
      → u.current_leader ≡ server
  unfolding probe note_leader ◌>>=◌
  probe_leader server t u e = ground arith

  -- Before the search the code reads the file and stores the list.
  init-init_loop :
      (path : CharArray) (text : Text) (servers : List Text) (s : Process W S) (w : W)
      → c_string path ≡ some text
      → rpc.read_server_list text s.world ≡ (returns servers, w)
      → kv739_init rpc (some path) s
        ≡ init_loop rpc servers (record s { server_list = servers; world = w })
  unfolding kv739_init lift ◌>>=◌
  init-init_loop path text servers s w ended read = rw (ended, kv739_init) (rw (read, kv739_init))

-- The file lists some servers.
module _ {W S : Type 0} (rpc : Rpc W S) (path : CharArray) (text : Text) (servers : List Text)
    (s : Process W S) (w : W) (ended : c_string path ≡ some text)
    (read : rpc.read_server_list text s.world ≡ (returns servers, w)) where
  -- The code 0 means that the current leader is a server of the file, and the code -1 that the
  -- current leader is the one from before the call.
  pub init_codes :
      ((kv739_init rpc (some path) s).0 ≡ returns (pos 0)
        → Mem (kv739_init rpc (some path) s).1.current_leader servers)
      × ((kv739_init rpc (some path) s).0 ≡ returns minus_one
          → (kv739_init rpc (some path) s).1.current_leader ≡ s.current_leader)
  init_codes =
      let t : Process W S = record s { server_list = servers; world = w } in
      rw (init-init_loop rpc path text servers s w ended read)
        (init_loop_leader rpc servers t, init_loop_no_leader rpc servers t)

  -- The search ends at the first server that says that it is the leader: those in front of it
  -- were asked and said no or failed, and those behind it are not asked.
  pub init_finds_leader :
      (before after : List Text) (server : Text) (t u : Process W S)
      → servers ≡ before ++ server ∷ after
      → Skips rpc before (record s { server_list = servers; world = w }) t
      → probe rpc server t ≡ (returns true, u)
      → (kv739_init rpc (some path) s ≡ (returns (pos 0), u)) × (u.current_leader ≡ server)
  init_finds_leader before after server t u split skipped yes_leader = (
    init-init_loop rpc path text servers s w ended read
        ∙ ap (λ l. init_loop rpc l (record s { server_list = servers; world = w })) split
        ∙ init_loop-append rpc (server ∷ after) skipped
        ∙ loop_found rpc server after t u yes_leader,
    probe_leader rpc server t u yes_leader,
  )
