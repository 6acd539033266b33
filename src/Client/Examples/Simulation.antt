-- ===== src/Client/Examples/Simulation.antt =====
-- A simulated server, which replies from a script.

use scalable_key_value_store.Prelude.{Bool, true, false, none, some, pos, List, [], ◌∷◌, ◌==◌}
use scalable_key_value_store.Client.Cpp.{Text, Outcome, returns, throws, std_exception}
use scalable_key_value_store.Client.Rpc.{Rpc, KvstoreResponse}
use scalable_key_value_store.Client.Connection.{Process, url}

-- what the server does to the next calls
abbrev pub Script : Type 0
Script = List (Outcome (Bool × KvstoreResponse))

-- a host is the leader if its name begins with `b`
abbrev pub leads : List Text → Bool
leads [] = false
leads ([] ∷ stubs) = false
leads ((c ∷ name) ∷ stubs) = c == b'b'

abbrev pub reply_next : Script → Outcome (Bool × KvstoreResponse) × Script
reply_next [] = (throws std_exception, [])
reply_next (o ∷ rest) = (o, rest)

abbrev pub host_a : Text
host_a = b'a' ∷ []

abbrev pub host_b : Text
host_b = b'b' ∷ []

abbrev pub simulated : Rpc Script Text
simulated = record {
  read_server_list = λ path w. (returns (host_a ∷ host_b ∷ []), w);
  create_stub = λ address w. (returns address, w);
  start_thread = λ stub w. (returns tt, w);
  contact_remote = λ stub request limit w. reply_next w;
  close_stub = λ stub w. w;
  is_leader = λ stubs w. (returns (leads stubs), w);
  shutdown = λ stubs w. (returns tt, w);
  terminate_server = λ stubs name clean w. (returns (pos 0), w);
  redirect_is_std = true;
}

abbrev pub idle : Script → Process Script Text
idle w = record {
  kv_client = none;
  server_list = [];
  current_leader = [];
  g_num_servers = 0;
  world = w;
}

abbrev pub joined : Text → Script → Process Script Text
joined host w = record {
  kv_client = some (record { servers = url host ∷ [] });
  server_list = [];
  current_leader = [];
  g_num_servers = 1;
  world = w;
}
