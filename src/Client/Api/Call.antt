-- ===== src/Client/Api/Call.antt =====
-- One blocking call of the client's first server.
use scalable_key_value_store.Prelude.{◌≡◌, true, false, some, List, ◌∷◌}
use scalable_key_value_store.Client.Cpp.{returns, throws, std_exception, ◌>>=◌}
use scalable_key_value_store.Client.Rpc.{KvstoreRequest, KvstoreResponse, Rpc}
use scalable_key_value_store.Client.Connection.{Process, lift, deadline, send_request}
use scalable_key_value_store.Client.Api.{call}

-- One call to the first server of the client.
module _ {W S : Type 0} (rpc : Rpc W S) (s : Process W S) (stub : S) (stubs : List S)
    (request : KvstoreRequest)
    (bound : s.kv_client ≡ some (record { servers = stub ∷ stubs })) where
  pub call-returns :
      (response : KvstoreResponse) (w : W)
      → rpc.contact_remote stub request deadline s.world ≡ (returns (true, response), w)
      → call rpc request s ≡ (returns response, record s { world = w })
  unfolding call send_request lift ◌>>=◌
  call-returns response w e = rw (bound, call) (rw e)

  pub call-fails :
      (response : KvstoreResponse) (w : W)
      → rpc.contact_remote stub request deadline s.world ≡ (returns (false, response), w)
      → call rpc request s ≡ (throws std_exception, record s { world = w })
  unfolding call send_request lift ◌>>=◌
  call-fails response w e = rw (bound, call) (rw e)
