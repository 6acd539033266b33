-- ===== src/Client/Api.antt =====
pub mod Copy
pub mod Call
pub mod Get
pub mod Put
pub mod Init
pub mod Shutdown
-- The functions of client/src/kvclient.cpp. A `char *` is `none` for NULL; an output buffer is
-- given as the memory behind the pointer, and the memory after the call is part of the result.
use scalable_key_value_store.Prelude.{
  ℕ, zero, suc, ◌+◌, Bool, true, false, Option, none, some, List, [], ◌∷◌, ◌++◌, ltb, length, take,
  drop, if◌then◌else◌, ℤ, pos, negsuc,
}
use scalable_key_value_store.Client.Cpp.{
  Text, Exception, leader_redirect, std_exception, foreign, Exec, pure, throw, crash, try_catch,
  ◌>>=◌, ◌>>◌, gets, modify, deref, CharArray, c_string,
}
use scalable_key_value_store.Client.Rpc.{get_req, put_req, KvstoreRequest, KvstoreResponse, Rpc}
use scalable_key_value_store.Client.Connection.{
  KvstoreRpcClient, Process, lift, send_request, assign_client, reconnect,
}

abbrev pub minus_one : ℤ
minus_one = negsuc 0

-- `retry_count`
abbrev pub retries : ℕ
retries = 3

abbrev pub max_copied : ℕ
max_copied = 2047

-- `val_len > 2047 ? 2047 : val_len`
unfoldable pub num_bytes : ℕ → ℕ
num_bytes val_len = if ltb max_copied val_len then max_copied else val_len

-- what `text.copy(buffer, n); buffer[n] = '\0'` leaves in the buffer
unfoldable pub overwrite : ℕ → Text → CharArray → CharArray
overwrite n text buffer = take n text ++ 0 ∷ drop (n + 1) buffer

-- both statements, `none` where they write out of bounds
unfoldable pub copy_out : Text → CharArray → Option CharArray
copy_out text buffer =
    let n = num_bytes (length text) in
    if ltb n (length buffer) then some (overwrite n text buffer) else none

-- what both functions do with a reply: 1 if nothing was found, else the copied text
unfoldable pub answer : {P : Type 0} → Bool → Text → CharArray → Exec P (ℤ × CharArray)
answer false text buffer = pure (pos 1, buffer)
answer true text buffer = do copied ← deref (copy_out text buffer); pure (pos 0, copied)

abbrev pub get_request : Text → KvstoreRequest
get_request key = record { key = key; value = []; request_type = get_req }

abbrev pub put_request : Text → Text → KvstoreRequest
put_request key value = record { key = key; value = value; request_type = put_req }

module _ {W S : Type 0} (rpc : Rpc W S) where
  -- whether `catch (const std::exception&)` takes it
  abbrev pub is_std : Exception → Bool
  is_std (leader_redirect address) = rpc.redirect_is_std
  is_std std_exception = true
  is_std foreign = false

module _ {W S A : Type 0} (rpc : Rpc W S) where
  -- the handler `catch (const std::exception&) { return a; }`
  abbrev pub catch_std : A → Exception → Exec (Process W S) A
  catch_std a e = if is_std rpc e then pure a else throw e

-- `std::string(pointer)`: undefined for NULL, and for memory that holds no zero byte
abbrev pub string_of : {P : Type 0} → Option CharArray → Exec P Text
string_of none = crash
string_of (some memory) = deref (c_string memory)

module _ {W S : Type 0} (rpc : Rpc W S) where
  -- the server is noted if it is the leader
  unfoldable pub note_leader : Text → Bool → Exec (Process W S) Bool
  note_leader server true = do modify (λ s. record s { current_leader = server }); pure true
  note_leader server false = pure false

  -- the body of the loop of `kv739_init`: `true` where the server is the leader
  unfoldable pub probe : Text → Exec (Process W S) Bool
  unfolding note_leader
  probe server = do
    reconnect rpc server
    client ← gets (λ s. s.kv_client)
    object ← deref client
    leader ← lift (rpc.is_leader object.servers)
    note_leader server leader

  unfoldable pub init_loop : List Text → Exec (Process W S) ℤ
  init_loop [] = pure minus_one
  init_loop (server ∷ servers) =
      let rest = init_loop servers in
      do
        found ← try_catch (probe server) (catch_std rpc false)
        if found then pure (pos 0) else rest

  unfoldable pub kv739_init : Option CharArray → Exec (Process W S) ℤ
  kv739_init config_file = do
    path ← string_of config_file
    servers ← lift (rpc.read_server_list path)
    modify (λ s. record s { server_list = servers })
    init_loop servers

  unfoldable pub shutdown_client : Option (KvstoreRpcClient S) → Exec (Process W S) (Unit {0})
  shutdown_client none = pure tt
  shutdown_client (some object) = do lift (rpc.shutdown object.servers); assign_client rpc none

  unfoldable pub kv739_shutdown : Exec (Process W S) ℤ
  kv739_shutdown =
      try_catch (do client ← gets (λ s. s.kv_client); shutdown_client client; pure (pos 0))
        (catch_std rpc minus_one)

  unfoldable pub kv739_die : Option CharArray → ℤ → Exec (Process W S) ℤ
  kv739_die server_name clean =
      try_catch
        (do
          name ← string_of server_name
          client ← gets (λ s. s.kv_client)
          object ← deref client
          lift (rpc.terminate_server object.servers name clean))
        (catch_std rpc minus_one)

  -- `kv_client->sendRequest(request, response, 0)`
  unfoldable pub call : KvstoreRequest → Exec (Process W S) KvstoreResponse
  call request = do
    client ← gets (λ s. s.kv_client)
    object ← deref client
    send_request rpc object request 0

  unfoldable pub get_value : CharArray → CharArray → Exec (Process W S) (ℤ × CharArray)
  get_value key value = do
    modern_key ← string_of (some key)
    try_catch
        (do response ← call (get_request modern_key); answer response.found response.value value)
        (catch_std rpc (minus_one, value))

  -- the null tests, and the call behind them
  unfoldable pub kv739_get :
      Option CharArray → Option CharArray → Exec (Process W S) (ℤ × Option CharArray)
  kv739_get none value = pure (minus_one, value)
  kv739_get (some key) none = pure (minus_one, none)
  kv739_get (some key) (some value) = do
    (code, written) ← get_value key value
    pure (code, some written)

  -- the body of the loop of `kv739_put`
  unfoldable pub put_attempt : Text → Text → CharArray → Exec (Process W S) (ℤ × CharArray)
  put_attempt key value old_value = do
    response ← call (put_request key value)
    answer response.found response.old_value old_value

  -- The handlers of the loop: a redirect connects to the new leader and goes on with `retry`.
  -- What the reconnection throws is not caught: it is thrown in a handler.
  unfoldable pub put_handler :
      Exec (Process W S) (ℤ × CharArray)
      → CharArray
      → Exception
      → Exec (Process W S) (ℤ × CharArray)
  put_handler retry old_value (leader_redirect address) = do
    modify (λ s. record s { current_leader = address })
    leader ← gets (λ s. s.current_leader)
    reconnect rpc leader
    retry
  put_handler retry old_value std_exception = catch_std rpc (minus_one, old_value) std_exception
  put_handler retry old_value foreign = catch_std rpc (minus_one, old_value) foreign

  -- `while (retry_count > 0)`
  unfoldable pub put_loop : ℕ → Text → Text → CharArray → Exec (Process W S) (ℤ × CharArray)
  put_loop zero key value old_value = pure (minus_one, old_value)
  put_loop (suc retry_count) key value old_value =
      let retry = put_loop retry_count key value old_value in
      try_catch (put_attempt key value old_value) (put_handler retry old_value)

  unfoldable pub put_value : CharArray → CharArray → CharArray → Exec (Process W S) (ℤ × CharArray)
  put_value key value old_value = do
    modern_key ← string_of (some key)
    modern_value ← string_of (some value)
    put_loop retries modern_key modern_value old_value

  unfoldable pub kv739_put :
      Option CharArray
      → Option CharArray
      → Option CharArray
      → Exec (Process W S) (ℤ × Option CharArray)
  kv739_put none value old_value = pure (minus_one, old_value)
  kv739_put (some key) none old_value = pure (minus_one, old_value)
  kv739_put (some key) (some value) none = pure (minus_one, none)
  kv739_put (some key) (some value) (some old_value) = do
    (code, written) ← put_value key value old_value
    pure (code, some written)
