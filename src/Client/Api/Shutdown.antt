-- ===== src/Client/Api/Shutdown.antt =====
-- `kv739_shutdown`, and what the other functions do without a client.
use scalable_key_value_store.Prelude.{
  ℕ, zero, suc, ◌≢◌, ◌≡◌, refl, Bool, true, false, none, some, ℤ, pos, List, [], ◌∷◌, arith, Option,
}
use scalable_key_value_store.Client.Cpp.{
  Text, CharArray, c_string, Outcome, returns, throws, undefined, ◌>>=◌, pure,
}
use scalable_key_value_store.Client.Rpc.{Rpc}
use scalable_key_value_store.Client.Connection.{
  Process, KvstoreRpcClient, lift, assign_client, release, close_servers,
}
use scalable_key_value_store.Client.Api.{
  minus_one, call, kv739_shutdown, shutdown_client, kv739_get, kv739_put, kv739_die, get_value,
  put_value, put_loop, put_attempt,
}

abbrev is_throw : {A : Type 0} → Outcome A → Bool
is_throw (returns a) = false
is_throw (throws x) = true
is_throw undefined = false

module _ {W S : Type 0} (rpc : Rpc W S) where
  close_servers_client :
      (n : ℕ) (stubs : List S) (s : Process W S)
      → (close_servers rpc n stubs s).1.kv_client ≡ s.kv_client
  unfolding close_servers ◌>>=◌
  close_servers_client zero stubs s = refl
  close_servers_client (suc n) [] s = refl
  close_servers_client (suc n) (stub ∷ stubs) s = close_servers_client n stubs _

  close_servers_no_throw :
      (n : ℕ) (stubs : List S) (s : Process W S) → is_throw (close_servers rpc n stubs s).0 ≡ false
  unfolding close_servers ◌>>=◌
  close_servers_no_throw zero stubs s = refl
  close_servers_no_throw (suc n) [] s = refl
  close_servers_no_throw (suc n) (stub ∷ stubs) s = close_servers_no_throw n stubs _

  release_client :
      (old : Option (KvstoreRpcClient S)) (s : Process W S)
      → (release rpc old s).1.kv_client ≡ s.kv_client
  unfolding release pure
  release_client none s = refl
  release_client (some old) s = close_servers_client s.g_num_servers old.servers s

  release_no_throw :
      (old : Option (KvstoreRpcClient S)) (s : Process W S) → is_throw (release rpc old s).0 ≡ false
  unfolding release pure
  release_no_throw none s = refl
  release_no_throw (some old) s = close_servers_no_throw s.g_num_servers old.servers s

  shutdown_done :
      (client : Option (KvstoreRpcClient S)) (s : Process W S)
      → s.kv_client ≡ client
      → is_throw (shutdown_client rpc client s).0 ≡ false
      → (shutdown_client rpc client s).0 ≢ undefined
      → (shutdown_client rpc client s).1.kv_client ≡ none
  unfolding shutdown_client assign_client lift ◌>>=◌
  shutdown_done none s e h k = e
  shutdown_done (some object) s e h k =
      let t : Process W S = record s { world = (rpc.shutdown object.servers s.world).1 } in
      ground (arith, release_client t.kv_client (record t { kv_client = none }))

  shutdown_kept :
      (client : Option (KvstoreRpcClient S)) (s : Process W S)
      → is_throw (shutdown_client rpc client s).0 ≡ true
      → (shutdown_client rpc client s).1.kv_client ≡ s.kv_client
  unfolding shutdown_client assign_client lift ◌>>=◌
  shutdown_kept none s h = cc
  shutdown_kept (some object) s h =
      let t : Process W S = record s { world = (rpc.shutdown object.servers s.world).1 } in
      ground (arith, release_no_throw t.kv_client (record t { kv_client = none }))

  -- After a shutdown that reports success the process has no client; after one that reports -1 it
  -- has the client that it had.
  pub shutdown_codes :
      (s : Process W S)
      → ((kv739_shutdown rpc s).0 ≡ returns (pos 0) → (kv739_shutdown rpc s).1.kv_client ≡ none)
        × ((kv739_shutdown rpc s).0 ≡ returns minus_one
            → (kv739_shutdown rpc s).1.kv_client ≡ s.kv_client)
  unfolding kv739_shutdown ◌>>=◌
  shutdown_codes s = (
    λ e. ground (arith, shutdown_done s.kv_client s),
    λ e. ground (arith, shutdown_kept s.kv_client s),
  )

  -- Without a client GET, PUT and DIE dereference a null pointer, whatever their arguments hold.
  pub null_client_undefined :
      (s : Process W S) (key value old_value : CharArray) (key_text value_text : Text) (clean : ℤ)
      → s.kv_client ≡ none
      → c_string key ≡ some key_text
      → c_string value ≡ some value_text
      → ((kv739_get rpc (some key) (some old_value) s).0 ≡ undefined)
        × ((kv739_put rpc (some key) (some value) (some old_value) s).0 ≡ undefined)
        × ((kv739_die rpc (some key) clean s).0 ≡ undefined)
  unfolding kv739_get kv739_put kv739_die get_value put_value put_loop put_attempt call ◌>>=◌
  null_client_undefined s key value old_value key_text value_text clean free ke ve =
      (ground arith, ground arith, ground arith)
