-- ===== src/Client/Connection.antt =====
-- The connection object of client/src/kvclientimpl.cpp: `KvstoreRPCClient`, its constructor, its
-- destructor and its blocking call, over the globals of the process (those of kvclient.cpp, and
-- `g_num_servers` of common/Global.h).
pub mod Hosts
pub mod Lifetime
use scalable_key_value_store.Prelude.{
  ℕ, zero, suc, Bool, true, false, Option, none, some, List, [], ◌∷◌, ◌++◌, ◌==◌, if◌then◌else◌,
  length, get_elem?,
}
use scalable_key_value_store.Client.Cpp.{
  Text, std_exception, Outcome, undefined, Exec, pure, throw, crash, ◌>>=◌, ◌>>◌, modify,
}
use scalable_key_value_store.Client.Rpc.{KvstoreRequest, KvstoreResponse, Rpc}

-- `_servers`; the thread of each server goes with its stub
pub record KvstoreRpcClient (S : Type 0) : Type 0 where
  pub servers : List S

pub record Process (W S : Type 0) : Type 0 where
  pub kv_client : Option (KvstoreRpcClient S)
  pub server_list : List Text
  pub current_leader : Text
  pub g_num_servers : ℕ
  pub world : W

abbrev pub last_token : Text → List Text
last_token [] = []
last_token (c ∷ token) = (c ∷ token) ∷ []

-- `getline(ss, token, delim)` until it fails: the pieces between delimiters. Nothing follows a
-- delimiter at the very end, and an empty text has no piece. `token` is what was read so far.
unfoldable pub tokens_from : ℕ → Text → Text → List Text
tokens_from delim token [] = last_token token
tokens_from delim token (c ∷ rest) =
    let ended = token ∷ tokens_from delim [] rest in
    let going = tokens_from delim (token ++ c ∷ []) rest in if c == delim then ended else going

abbrev pub semicolon : ℕ
semicolon = b';'

unfoldable pub host_addrs : Text → List Text
host_addrs hosts = tokens_from semicolon [] hosts

-- ":" and `std::to_string(port)` for the port 50051
abbrev pub port_suffix : Text
port_suffix = b':' ∷ b'5' ∷ b'0' ∷ b'0' ∷ b'5' ∷ b'1' ∷ []

unfoldable pub url : Text → Text
url host = host ++ port_suffix

module _ {W S A : Type 0} where
  -- A call that acts on the world alone.
  unfoldable pub lift : (W → Outcome A × W) → Exec (Process W S) A
  lift m s = let (r, w) = m s.world in (r, record s { world = w })

-- of a call, in milliseconds
abbrev pub deadline : ℕ
deadline = 500

module _ {W S : Type 0} (rpc : Rpc W S) where
  unfoldable pub open_servers : List Text → Exec (Process W S) (List S)
  open_servers [] = pure []
  open_servers (host ∷ hosts) = do
    stub ← lift (rpc.create_stub (url host))
    lift (rpc.start_thread stub)
    rest ← open_servers hosts
    pure (stub ∷ rest)

  -- the constructor
  unfoldable pub connect : Text → Exec (Process W S) (KvstoreRpcClient S)
  connect hosts = do
    modify (λ s. record s { g_num_servers = length (host_addrs hosts) })
    stubs ← open_servers (host_addrs hosts)
    pure (record { servers = stubs })

  -- the loop of the destructor: `i` counts up to `g_num_servers`, and `_servers[i]` is out of
  -- bounds behind the end of the list
  unfoldable pub close_servers : ℕ → List S → Exec (Process W S) (Unit {0})
  close_servers zero stubs = pure tt
  close_servers (suc n) [] = crash
  close_servers (suc n) (stub ∷ stubs) = do
    modify (λ s. record s { world = rpc.close_stub stub s.world })
    close_servers n stubs

  -- the destructor
  unfoldable pub disconnect : KvstoreRpcClient S → Exec (Process W S) (Unit {0})
  disconnect client s = close_servers s.g_num_servers client.servers s

  -- a status that is not ok is thrown as a `std::runtime_error`
  unfoldable pub checked : Bool × KvstoreResponse → Exec (Process W S) KvstoreResponse
  checked (true, response) = pure response
  checked (false, response) = throw std_exception

  unfoldable pub send_request :
      KvstoreRpcClient S → KvstoreRequest → ℕ → Exec (Process W S) KvstoreResponse
  unfolding checked
  send_request client request node_id s = elim (get_elem? client.servers node_id) [
    | none ↦ (undefined, s)
    | some stub ↦ (do reply ← lift (rpc.contact_remote stub request deadline); checked reply) s
  ]

  -- assignment to the `shared_ptr`, which is the only owner: the old object is destroyed
  unfoldable pub release : Option (KvstoreRpcClient S) → Exec (Process W S) (Unit {0})
  unfolding disconnect
  release none = pure tt
  release (some old) = disconnect old

  unfoldable pub assign_client : Option (KvstoreRpcClient S) → Exec (Process W S) (Unit {0})
  unfolding release
  assign_client new s = release s.kv_client (record s { kv_client = new })

  -- `kv_client = std::make_shared<KvstoreRPCClient>(hosts)`
  unfoldable pub reconnect : Text → Exec (Process W S) (Unit {0})
  reconnect hosts = do client ← connect hosts; assign_client (some client)
