-- ===== src/Client/Examples.antt =====
-- The client's theorems at concrete inputs, over a simulated server.
pub mod Simulation
pub mod Connections
use mathlib.Core.List.{Mem}
use scalable_key_value_store.Prelude.{
  ℕ, suc, ◌≡◌, refl, Bool, true, false, Option, none, some, pos, List, [], ◌∷◌, arith, All,
  replicate, length, ◌==◌, ◌≤◌,
}
use scalable_key_value_store.Client.Cpp.{
  Text, CharArray, Outcome, returns, throws, undefined, std_exception, leader_redirect, c_string,
  ◌>>=◌,
}
use scalable_key_value_store.Client.Cpp.Strings.{IsFree}
use scalable_key_value_store.Client.Rpc.{Rpc, KvstoreResponse, get_req, put_req, unexpected}
use scalable_key_value_store.Client.Connection.{
  Process, host_addrs, semicolon, tokens_from, url, lift, open_servers, connect, disconnect,
  reconnect, assign_client, release, close_servers, send_request, checked,
}
use scalable_key_value_store.Client.Connection.Hosts.{host_addrs-terminated, host_addrs-IsFree}
use scalable_key_value_store.Client.Connection.Lifetime.{
  disconnect-connect, reconnect_more_hosts, reconnect_closes,
}
use scalable_key_value_store.Client.Api.{
  minus_one, call, answer, copy_out, overwrite, num_bytes, probe, note_leader, kv739_init,
  kv739_get, kv739_put, kv739_shutdown, kv739_die, put_attempt, get_value,
}
use scalable_key_value_store.Client.Api.Copy.{IsCopy}
use scalable_key_value_store.Client.Api.Get.{get_found, get_error_keeps_buffer}
use scalable_key_value_store.Client.Api.Put.{
  Redirects, stay, follow, put_follows_leaders, put_gives_up,
}
use scalable_key_value_store.Client.Api.Init.{Skips, init_codes, init_finds_leader}
use scalable_key_value_store.Client.Api.Init
use scalable_key_value_store.Client.Api.Shutdown.{shutdown_codes, null_client_undefined}
use scalable_key_value_store.Client.Async.{
  AsyncState, AsyncClientCall, Completion, async_complete_rpc, is_allocated,
}
use scalable_key_value_store.Client.Async.Leaks.{Frees, async_complete_rpc-Frees}
use scalable_key_value_store.Client.Examples.Simulation.{
  Script, leads, reply_next, host_a, host_b, simulated, idle, joined,
}

abbrev reply : KvstoreResponse
reply = record { request_type = unexpected 7; found = true; value = 5 ∷ 6 ∷ []; old_value = 8 ∷ [] }

abbrev name : CharArray
name = 3 ∷ 0 ∷ []

abbrev buffer : CharArray
buffer = replicate 2048 1

buffer_room : 2048 ≤ length buffer
buffer_room = omega arith

get_found_example :
    (written : CharArray) × (kv739_get simulated
        (some name)
        (some buffer)
        (joined host_b (returns (true, reply) ∷ []))
      ≡ (returns (pos 0, some written), joined host_b []))
    × IsCopy (5 ∷ 6 ∷ []) buffer written
unfolding c_string
get_found_example =
    get_found simulated (joined host_b (returns (true, reply) ∷ [])) (url host_b) [] refl name
      buffer (3 ∷ []) refl reply [] refl refl buffer_room

get_error_keeps_buffer_example : ◌≡◌ {A = Option CharArray} (some buffer) (some buffer)
unfolding kv739_get get_value call send_request lift checked c_string ◌>>=◌
get_error_keeps_buffer_example =
    get_error_keeps_buffer simulated (some name) (some buffer) (some buffer) (joined host_b [])
      minus_one refl (λ e. cc)

abbrev redirect : Outcome (Bool × KvstoreResponse)
redirect = throws (leader_redirect host_a)

-- after a redirect to the first host
abbrev moved : Script → Process Script Text
moved w = record (joined host_a w) { current_leader = host_a }

abbrev small : CharArray
small = 1 ∷ 1 ∷ []

first_redirect :
    {n : ℕ} {v : Process Script Text} (w : Script)
    → Redirects simulated (3 ∷ []) (4 ∷ []) small n (moved w) v
    → Redirects simulated (3 ∷ []) (4 ∷ []) small (suc n) (joined host_b (redirect ∷ w)) v
unfolding put_attempt call send_request lift checked reconnect connect open_servers host_addrs
    tokens_from assign_client release disconnect close_servers ◌>>=◌
first_redirect {v = v} w rest = follow _ (joined host_b w) (moved w) v host_a refl refl rest

next_redirect :
    {n : ℕ} {v : Process Script Text} (w : Script)
    → Redirects simulated (3 ∷ []) (4 ∷ []) small n (moved w) v
    → Redirects simulated (3 ∷ []) (4 ∷ []) small (suc n) (moved (redirect ∷ w)) v
unfolding put_attempt call send_request lift checked reconnect connect open_servers host_addrs
    tokens_from assign_client release disconnect close_servers ◌>>=◌
next_redirect {v = v} w rest = follow _ (moved w) (moved w) v host_a refl refl rest

put_follows_leaders_example :
    kv739_put simulated
      (some name)
      (some (4 ∷ 0 ∷ []))
      (some small)
      (joined host_b (redirect ∷ returns (true, reply) ∷ []))
    ≡ (returns (pos 0, some (8 ∷ 0 ∷ [])), moved [])
unfolding put_attempt call send_request lift checked answer copy_out overwrite num_bytes c_string
    ◌>>=◌
put_follows_leaders_example =
    put_follows_leaders simulated name (4 ∷ 0 ∷ []) small (3 ∷ []) (4 ∷ []) refl refl
      (joined host_b (redirect ∷ returns (true, reply) ∷ [])) (moved (returns (true, reply) ∷ []))
      (moved []) (pos 0) (8 ∷ 0 ∷ []) (first_redirect (returns (true, reply) ∷ []) (stay _))
      (omega arith) refl

put_gives_up_example :
    kv739_put simulated
      (some name)
      (some (4 ∷ 0 ∷ []))
      (some small)
      (joined host_b (redirect ∷ redirect ∷ redirect ∷ []))
    ≡ (returns (minus_one, some small), moved [])
unfolding c_string
put_gives_up_example =
    put_gives_up simulated name (4 ∷ 0 ∷ []) small (3 ∷ []) (4 ∷ []) refl refl
      (joined host_b (redirect ∷ redirect ∷ redirect ∷ [])) (moved [])
      (first_redirect _ (next_redirect _ (next_redirect [] (stay _))))

-- after the search
abbrev found : Process Script Text
found = record {
  kv_client = some (record { servers = url host_b ∷ [] });
  server_list = host_a ∷ host_b ∷ [];
  current_leader = host_b;
  g_num_servers = 1;
  world = [];
}

abbrev asked : Process Script Text
asked = record found {
  kv_client = some (record { servers = url host_a ∷ [] });
  current_leader = [];
}

first_skipped :
    Skips simulated (host_a ∷ []) (record (idle []) { server_list = host_a ∷ host_b ∷ [] }) asked
unfolding probe note_leader lift reconnect connect open_servers host_addrs tokens_from assign_client
    release disconnect close_servers url ◌>>=◌
first_skipped = Init.skip host_a _ asked asked refl (Init.stay asked)

second_leads : probe simulated host_b asked ≡ (returns true, found)
unfolding probe note_leader lift reconnect connect open_servers host_addrs tokens_from assign_client
    release disconnect close_servers url ◌>>=◌
second_leads = refl

init_finds_leader_example :
    (kv739_init simulated (some name) (idle []) ≡ (returns (pos 0), found))
    × (◌≡◌ {A = Text} host_b host_b)
unfolding c_string
init_finds_leader_example =
    init_finds_leader simulated name (3 ∷ []) (host_a ∷ host_b ∷ []) (idle []) [] refl refl
      (host_a ∷ []) [] host_b asked found refl first_skipped second_leads

init_codes_example :
    ((kv739_init simulated (some name) (idle [])).0 ≡ returns (pos 0)
      → Mem (kv739_init simulated (some name) (idle [])).1.current_leader (host_a ∷ host_b ∷ []))
    × ((kv739_init simulated (some name) (idle [])).0 ≡ returns minus_one
        → (kv739_init simulated (some name) (idle [])).1.current_leader ≡ [])
unfolding c_string
init_codes_example =
    init_codes simulated name (3 ∷ []) (host_a ∷ host_b ∷ []) (idle []) [] refl refl

shutdown_codes_example :
    ((kv739_shutdown simulated (joined host_a [])).0 ≡ returns (pos 0)
      → (kv739_shutdown simulated (joined host_a [])).1.kv_client ≡ none)
    × ((kv739_shutdown simulated (joined host_a [])).0 ≡ returns minus_one
        → (kv739_shutdown simulated (joined host_a [])).1.kv_client
          ≡ some (record { servers = url host_a ∷ [] }))
shutdown_codes_example = shutdown_codes simulated (joined host_a [])

null_client_undefined_example :
    ((kv739_get simulated (some name) (some small) (idle [])).0 ≡ undefined)
    × ((kv739_put simulated (some name) (some name) (some small) (idle [])).0 ≡ undefined)
    × ((kv739_die simulated (some name) (pos 1) (idle [])).0 ≡ undefined)
unfolding c_string
null_client_undefined_example =
    null_client_undefined simulated (idle []) name name small (3 ∷ []) (3 ∷ []) (pos 1) refl refl
      refl
