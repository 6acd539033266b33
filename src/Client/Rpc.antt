-- ===== src/Client/Rpc.antt =====
-- What the client takes from code outside the repository: gRPC, the generated messages, and the
-- headers rpc_client.h and kvclientimpl.h, which the repository does not hold.
use scalable_key_value_store.Prelude.{ℕ, ℤ, Bool, List}
use scalable_key_value_store.Client.Cpp.{Text, Outcome}

-- the request types that the source names, and any other number that a reply may carry
pub data RequestType : Type 0 where
  get_req put_req stop_req : RequestType
  unexpected : ℕ → RequestType

-- the fields of the generated `KvstoreRequest` that the client sets
pub record KvstoreRequest : Type 0 where
  pub key : Text
  pub value : Text
  pub request_type : RequestType

-- the fields of the generated `KvstoreResponse` that the client reads
pub record KvstoreResponse : Type 0 where
  pub request_type : RequestType
  pub found : Bool
  pub value : Text
  pub old_value : Text

-- `S` is a stub with its channel, completion queue and thread; `W` is all that lies outside the
-- process: the servers, the network, the file system.
pub record Rpc (W S : Type 0) : Type 0 where
  -- `read_server_list(config_file)`: declared in kvclient.cpp, defined nowhere
  pub read_server_list : Text → W → Outcome (List Text) × W
  -- `new KvstoreRPCClientStub(grpc::CreateChannel(url, ...))`
  pub create_stub : Text → W → Outcome S × W
  -- `new std::thread(&KvstoreRPCClient::AsyncCompleteRpc, ...)`
  pub start_thread : S → W → Outcome (Unit {0}) × W
  -- `stub->contactRemote(&context, request, &response)` with a deadline in milliseconds;
  -- the Boolean is `status.ok()`
  pub contact_remote : S → KvstoreRequest → ℕ → W → Outcome (Bool × KvstoreResponse) × W
  -- `cq_.Shutdown()`, `join()` of the thread, and the two `delete`s of one server
  pub close_stub : S → W → W
  -- `IsLeader`, `Shutdown` and `TerminateServer` of `KvstoreRPCClient`, over its stubs
  pub is_leader : List S → W → Outcome Bool × W
  pub shutdown : List S → W → Outcome (Unit {0}) × W
  pub terminate_server : List S → Text → ℤ → W → Outcome ℤ × W
  -- whether `LeaderRedirectException` derives from `std::exception`
  pub redirect_is_std : Bool
