-- ===== src/Server/Examples/Processes.antt =====
-- A process on the sample database: its port, and its first answer.
use scalable_key_value_store.Server.Integers.{parse_int, positive, magnitude, digits_from, digit}
use scalable_key_value_store.Prelude.{
  ◌<◌, ◌^◌, ℕ, ℤ, ◌≡◌, refl, some, none, List, [], ◌∷◌, ◌++◌, map, arith,
}
use scalable_key_value_store.Server.Java.{pure, non_null, throws, runtime_exception, returns, ◌>>=◌}
use scalable_key_value_store.Server.Sql.{sql_exception, Engine, Text, done}
use scalable_key_value_store.Server.Storage
use scalable_key_value_store.Server.Storage.Sqlite.{Tables}
use scalable_key_value_store.Server.Storage.Refines.{encode}
use scalable_key_value_store.Server.Raft.{localhost}
use scalable_key_value_store.Server.Config.{
  config_with, split, pieces, prepend, trim, keep_piece, new_config, new_config, split, pieces,
  prepend, trim, keep_piece, Properties, comma,
}
use scalable_key_value_store.Server.Integers.Places.{character, place_value, IsDigits}
use scalable_key_value_store.Server.Process.{
  second, new_storage, opened, start, result, new_server, Platform, colon, port_of, main,
}
use scalable_key_value_store.Server.Process.Port.{IsFree, port_of-digits}
use scalable_key_value_store.Server.Process.Refusal.{
  RefusesLogs, IsDown, with_grpc, main_never_serves, main_throws,
}
use scalable_key_value_store.Server.Examples.Database.{database, key_a, key_b, sample_store}

abbrev tail_digits : List ℕ
tail_digits = 0 ∷ 0 ∷ 5 ∷ 1 ∷ []

abbrev node_name : Text
node_name = localhost ++ colon ∷ map character (5 ∷ tail_digits)

abbrev alone_properties : Properties
alone_properties = record {
  node_id = some node_name;
  peers = some (comma ∷ []);
  storage_path = some key_a;
}

-- The world is the list of the ports that are listened on.
abbrev machine : Platform (List ℤ) Tables ℤ
machine = record {
  other_digit = λ c. none;
  load = λ path w. (returns alone_properties, w);
  get_connection = λ path w. (done (encode sample_store), w);
  build = λ port w. (returns port, w);
  start_server = λ port w. (returns tt, port ∷ w);
  shutdown_server = λ port w. [];
}

localhost-IsFree : IsFree colon localhost
localhost-IsFree = ground arith

port-IsDigits : IsDigits (5 ∷ tail_digits)
port-IsDigits = ground arith

port-place_value : place_value (5 ∷ tail_digits) ≡ 50051
unfolding place_value
port-place_value = refl

port_small : place_value (5 ∷ tail_digits) < 2 ^ 31
unfolding place_value
port_small = omega arith

port_of-digits_example :
    port_of machine (some node_name) [] ≡ (returns (ℤ.pos (place_value (5 ∷ tail_digits))), [])
unfolding place_value
port_of-digits_example =
    port_of-digits machine localhost 5 tail_digits [] localhost-IsFree port-IsDigits (omega arith)

-- A database that refuses the table of the log.
abbrev refusing : Engine Tables
refusing = record database { create_logs = λ d. (sql_exception, d) }

refusing-RefusesLogs : RefusesLogs refusing
refusing-RefusesLogs d = refl

main_never_serves_example :
    IsDown (main machine refusing (key_b ∷ []) []).0
    × (main machine refusing (key_b ∷ []) []
        ≡ main
            (with_grpc (λ port w. (returns port, w)) (λ port w. (returns tt, w)) machine)
            refusing
            (key_b ∷ [])
            [])
main_never_serves_example =
    main_never_serves machine refusing refusing-RefusesLogs (λ port w. (returns port, w))
      (λ port w. (returns tt, w)) (key_b ∷ []) []

main_throws_example : main machine refusing (key_b ∷ []) [] ≡ (throws runtime_exception, [])
main_throws_example =
    main_throws machine refusing refusing-RefusesLogs key_b localhost (comma ∷ []) 5 tail_digits
      alone_properties [] [] refl refl refl localhost-IsFree port-IsDigits port_small

-- Where the tables can be made, the same process listens on its port.
listens : (main machine database (key_b ∷ []) []).1 ≡ ℤ.pos 50051 ∷ []
unfolding main new_config result ◌>>=◌ new_server port_of non_null second pure split pieces prepend
    trim keep_piece parse_int positive magnitude digits_from digit new_storage opened
    Storage.initialize_database Storage.checked start config_with
listens = refl
