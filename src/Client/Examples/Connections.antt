-- ===== src/Client/Examples/Connections.antt =====
-- Connections and asynchronous calls at concrete inputs.

use scalable_key_value_store.Prelude.{ℕ, ◌≡◌, refl, true, false, none, List, [], ◌∷◌, arith, All}
use scalable_key_value_store.Client.Cpp.{Text, returns, undefined, ◌>>=◌}
use scalable_key_value_store.Client.Cpp.Strings.{IsFree}
use scalable_key_value_store.Client.Rpc.{get_req, put_req}
use scalable_key_value_store.Client.Connection.{
  host_addrs, semicolon, tokens_from, url, lift, open_servers, connect, disconnect, reconnect,
}
use scalable_key_value_store.Client.Connection.Hosts.{host_addrs-terminated, host_addrs-IsFree}
use scalable_key_value_store.Client.Connection.Lifetime.{
  disconnect-connect, reconnect_more_hosts, reconnect_closes,
}
use scalable_key_value_store.Client.Async.{
  AsyncState, AsyncClientCall, Completion, async_complete_rpc, is_allocated,
}
use scalable_key_value_store.Client.Async.Leaks.{Frees, async_complete_rpc-Frees}
use scalable_key_value_store.Client.Examples.Simulation.{host_a, host_b, simulated, idle, joined}

abbrev two_hosts : Text
two_hosts = b'a' ∷ semicolon ∷ b'b' ∷ []

disconnect-connect_example :
    let made = (connect simulated two_hosts (idle [])).1 in
    disconnect simulated (record { servers = url host_a ∷ url host_b ∷ [] }) made
    ≡ (returns tt, record made { world = [] })
unfolding connect open_servers host_addrs tokens_from lift ◌>>=◌
disconnect-connect_example =
    disconnect-connect simulated two_hosts (idle [])
      (record { servers = url host_a ∷ url host_b ∷ [] }) refl

reconnect_more_hosts_example : (reconnect simulated two_hosts (joined host_a [])).0 ≡ undefined
unfolding connect open_servers host_addrs tokens_from lift ◌>>=◌
reconnect_more_hosts_example =
    reconnect_more_hosts simulated two_hosts (joined host_a [])
      (record { servers = url host_a ∷ [] }) (record { servers = url host_a ∷ url host_b ∷ [] })
      refl refl (omega arith)

reconnect_closes_example :
    reconnect simulated host_b (joined host_a []) ≡ (returns tt, joined host_b [])
unfolding connect open_servers host_addrs tokens_from lift ◌>>=◌
reconnect_closes_example =
    reconnect_closes simulated host_b (joined host_a []) (record { servers = url host_a ∷ [] })
      (record { servers = url host_b ∷ [] }) refl refl (omega arith)

host_addrs-terminated_example :
    host_addrs (b'a' ∷ semicolon ∷ semicolon ∷ b'b' ∷ []) ≡ host_a ∷ [] ∷ host_b ∷ []
host_addrs-terminated_example =
    host_addrs-terminated (host_a ∷ [] ∷ []) host_b ((refl, tt), (tt, tt)) (refl, tt)

host_addrs-IsFree_example : All (IsFree semicolon) (host_addrs two_hosts)
host_addrs-IsFree_example = host_addrs-IsFree two_hosts

abbrev async_call : ℕ → AsyncClientCall
async_call a = record {
  address = a;
  request = record { key = []; value = []; request_type = get_req };
  deadline = none;
}

abbrev two_calls : AsyncState
two_calls = record { calls = async_call 10 ∷ async_call 20 ∷ []; context_deadline = none; log = [] }

abbrev completions : List Completion
completions =
    record { tag = 20; status_ok = true; reply_type = get_req }
    ∷ record { tag = 10; status_ok = false; reply_type = put_req }
    ∷ []

async_complete_rpc-Frees_example :
    (t : AsyncState) × (async_complete_rpc completions two_calls ≡ (returns tt, t))
    × Frees completions two_calls t
unfolding is_allocated
async_complete_rpc-Frees_example =
    async_complete_rpc-Frees completions two_calls (refl, (refl, tt), (refl, tt, tt))

-- the call that failed is the one that is left
failed_call_leaks : ((async_complete_rpc completions two_calls).1).calls ≡ async_call 10 ∷ []
unfolding async_complete_rpc is_allocated ◌>>=◌
failed_call_leaks = refl
