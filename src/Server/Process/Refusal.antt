-- ===== src/Server/Process/Refusal.antt =====
-- A server on a database that refuses the table of the log, as SQLite does: `index` is a keyword of
-- SQL, and the statement has it as the name of a column without quotes.
use scalable_key_value_store.Server.Integers.Places.{place_value, character, IsDigits}
use scalable_key_value_store.Server.Process.Port.{IsFree, port_of-digits}
use scalable_key_value_store.Server.Java.Monad.{bind_cong, bind_assoc}
use scalable_key_value_store.Server.Storage.{or_throw}
use scalable_key_value_store.Prelude.{
  subst, sym, ◌++◌, map, ◌<◌, ◌^◌, ℕ, ℤ, ◌≡◌, refl, ◌∙◌, Option, some, List, [], ◌∷◌,
}
use scalable_key_value_store.Server.Java.{
  Throwable, Outcome, returns, throws, runtime_exception, Exec, continue, pure, ◌>>=◌,
}
use scalable_key_value_store.Server.Sql.{Text, Sql, done, sql_exception, Engine}
use scalable_key_value_store.Server.Storage
use scalable_key_value_store.Server.Config.{config_with, Properties, ServerConfig, new_config}
use scalable_key_value_store.Server.Process.{
  colon, Platform, Ending, exits, serves, result, port_of, opened, new_storage, new_server, start,
  main,
}

-- `SQLException` for that statement, on every connection
abbrev pub RefusesLogs : {D : Type 0} → Engine D → Type 0
RefusesLogs {D} sql = (d : D) → (sql.create_logs d).0 ≡ sql_exception

-- The process does not come to serve: it exits with status 1, or main throws.
abbrev pub IsDown : {D H : Type 0} → Outcome (Ending D H) → Type 0
IsDown (returns (exits n)) = n ≡ 1
IsDown (returns (serves server tasks)) = ⊥
IsDown (throws e) = Unit {0}

-- another gRPC
abbrev pub with_grpc :
    {W D H : Type 0}
    → (ℤ → W → Outcome H × W)
    → (H → W → Outcome (Unit {0}) × W)
    → Platform W D H
    → Platform W D H
with_grpc build run platform = record platform { build = build; start_server = run }

bind-IsDown :
    {P A D H : Type 0} (m : Exec P A) (f : A → Exec P (Ending D H)) (s : P)
    → ((a : A) (t : P) → IsDown (f a t).0)
    → IsDown ((m >>= f) s).0
unfolding ◌>>=◌
bind-IsDown {P = P} {A = A} m f s h = continues (m s).0 (m s).1
  where
    continues : (r : Outcome A) (t : P) → IsDown (continue r f t).0
    continues (returns a) t = h a t
    continues (throws e) t = tt

both_thrown :
    {P A B C : Type 0} (m : Exec P A) (f : A → Exec P B) (g : B → Exec P C) (s t : P)
    (e : Throwable)
    → m s ≡ (throws e, t)
    → (m >>= f >>= g) s ≡ (throws e, t)
unfolding ◌>>=◌
both_thrown m f g s t e h = rw h refl

module _ {W D H : Type 0} (platform : Platform W D H) (sql : Engine D) where
  -- The configuration is read and the database opened, which ends with a `RuntimeException`.
  abbrev pub gives_up : List Text → Exec W (Ending D H)
  gives_up [] = pure (exits 1)
  gives_up (path ∷ []) = platform.load path >>= λ props. result (new_config props) >>= λ config.
      port_of platform config.node_id >>= λ port w.
      (throws runtime_exception, (platform.get_connection config.storage_path w).1)
  gives_up (path ∷ more ∷ paths) = pure (exits 1)

  module _ (refuses : RefusesLogs sql) where
    behind_kv_store :
        (r : Sql (Unit {0})) (d : D) (rest : Exec D (Unit {0}))
        → (continue (or_throw r) (λ _. Storage.checked sql.create_logs >>= λ _. rest) d).0
          ≡ throws runtime_exception
    unfolding Storage.checked ◌>>=◌
    behind_kv_store sql_exception d rest = refl
    behind_kv_store (done tt) d rest = rw (refuses d) refl

    tables_refused : (d : D) → (Storage.initialize_database sql d).0 ≡ throws runtime_exception
    unfolding Storage.initialize_database Storage.checked ◌>>=◌
    tables_refused d = behind_kv_store (sql.create_kv_store d).0 (sql.create_kv_store d).1 _

    opened_refused : (r : Sql D) (w : W) → opened platform sql r w ≡ (throws runtime_exception, w)
    unfolding opened
    opened_refused sql_exception w = refl
    opened_refused (done d) w = rw (tables_refused d) refl

    storage_refused :
        (path : Option Text) (w : W)
        → new_storage platform sql path w
          ≡ (throws runtime_exception, (platform.get_connection path w).1)
    unfolding new_storage
    storage_refused path w = opened_refused _ _

    server_refused :
        (config : ServerConfig) (w : W)
        → (new_server platform sql config >>= λ server.
              start platform sql server >>= λ tasks. pure (serves server tasks))
            w
          ≡ (port_of platform config.node_id >>= λ port w.
                (throws runtime_exception, (platform.get_connection config.storage_path w).1))
              w
    unfolding new_server
    server_refused config w =
        bind_assoc _ _ _ w
        ∙ bind_cong (port_of platform config.node_id) _ _ w
            λ port u. both_thrown _ _ _ u _ _ (storage_refused config.storage_path u)

    main-gives_up : (args : List Text) (w : W) → main platform sql args w ≡ gives_up args w
    unfolding main
    main-gives_up [] w = refl
    main-gives_up (path ∷ []) w =
        bind_cong (platform.load path) _ _ w
          λ props u. bind_cong (result (new_config props)) _ _ u λ config v. server_refused config v
    main-gives_up (path ∷ more ∷ paths) w = refl

  gives_up-IsDown : (args : List Text) (w : W) → IsDown (gives_up args w).0
  unfolding pure
  gives_up-IsDown [] w = refl
  gives_up-IsDown (path ∷ []) w = bind-IsDown (platform.load path) _ w λ props u.
      bind-IsDown (result (new_config props)) _ u
        λ config v. bind-IsDown (port_of platform config.node_id) _ v λ port t. tt
  gives_up-IsDown (path ∷ more ∷ paths) w = refl

module _ {W D H : Type 0} (platform : Platform W D H) (sql : Engine D)
    (refuses : RefusesLogs sql) where
  same_without :
      (build : ℤ → W → Outcome H × W) (run : H → W → Outcome (Unit {0}) × W) (args : List Text)
      (w : W)
      → gives_up (with_grpc build run platform) sql args w ≡ gives_up platform sql args w
  unfolding port_of
  same_without build run [] w = refl
  same_without build run (path ∷ []) w = refl
  same_without build run (path ∷ more ∷ paths) w = refl

  -- On a database that refuses the table of the log, the process never comes to serve, whatever its
  -- arguments are, what the configuration says, and what the rest of the database does: it exits
  -- with status 1, or main throws. It does the same with any other gRPC, so nothing is listened on.
  pub main_never_serves :
      (build : ℤ → W → Outcome H × W) (run : H → W → Outcome (Unit {0}) × W) (args : List Text)
      (w : W)
      → IsDown (main platform sql args w).0
        × (main platform sql args w ≡ main (with_grpc build run platform) sql args w)
  main_never_serves build run args w =
      let here = main-gives_up platform sql refuses args w in
      let there = main-gives_up (with_grpc build run platform) sql refuses args w in
      (
        subst (λ (r : Outcome (Ending D H) × W). IsDown r.0) (sym here)
            (gives_up-IsDown platform sql args w),
        here ∙ sym (there ∙ same_without build run args w),
      )

  -- On a database that refuses the table of the log, main with one argument throws a
  -- `RuntimeException` right behind the attempt to open the database, if the file can be read, the
  -- list of peers is there, and the node id is a text without a colon, a colon and a port in
  -- decimal digits below 2^31.
  pub main_throws :
      (path host list : Text) (digit : ℕ) (digits : List ℕ) (props : Properties) (w w1 : W)
      → platform.load path w ≡ (returns props, w1)
      → props.peers ≡ some list
      → props.node_id ≡ some (host ++ colon ∷ map character (digit ∷ digits))
      → IsFree colon host
      → IsDigits (digit ∷ digits)
      → place_value (digit ∷ digits) < 2 ^ 31
      → main platform sql (path ∷ []) w
        ≡ (throws runtime_exception, (platform.get_connection props.storage_path w1).1)
  unfolding new_config config_with result ◌>>=◌
  main_throws path host list digit digits props w w1 loaded listed named free decimal small =
      main-gives_up platform sql refuses (path ∷ []) w
      ∙ rw (loaded, listed, named, port_of-digits platform host digit digits w1 free decimal small)
          refl
