-- ===== src/Client/Async.antt =====
pub mod Leaks
-- The asynchronous calls of client/src/kvclientimpl.cpp: `sendRequestAsync`, the completion loop
-- `AsyncCompleteRpc` of one server's thread, and `sendRequestDone`.
use scalable_key_value_store.Prelude.{
  ℕ, Bool, true, false, Option, none, some, List, [], ◌∷◌, ◌++◌, ◌==◌, if◌then◌else◌, get_elem?,
}
use scalable_key_value_store.Client.Cpp.{Exec, pure, crash, ◌>>◌, modify}
use scalable_key_value_store.Client.Rpc.{
  RequestType, get_req, put_req, stop_req, unexpected, KvstoreRequest,
}
use scalable_key_value_store.Client.Connection.{KvstoreRpcClient}

-- A line that is logged, without its text.
pub data Line : Type 0 where
  get_completed put_completed stop_completed : Line
  unexpected_type : ℕ → Line
  response_failure : Line

-- `address` is where `new AsyncClientCall` put it; `deadline` is that of its own `context`
pub record AsyncClientCall : Type 0 where
  pub address : ℕ
  pub request : KvstoreRequest
  pub deadline : Option ℕ

-- The calls that are allocated, the deadline of the variable `context` that `sendRequestAsync`
-- names (it is not the call's), and what was logged.
pub record AsyncState : Type 0 where
  pub calls : List AsyncClientCall
  pub context_deadline : Option ℕ
  pub log : List Line

-- What `cq_.Next` delivers: the tag is the address of a call, whose status and reply are written.
pub record Completion : Type 0 where
  pub tag : ℕ
  pub status_ok : Bool
  pub reply_type : RequestType

unfoldable pub is_allocated : ℕ → List AsyncClientCall → Bool
is_allocated a [] = false
is_allocated a (c ∷ cs) = if c.address == a then true else is_allocated a cs

-- `delete call`
unfoldable pub remove : ℕ → List AsyncClientCall → List AsyncClientCall
remove a [] = []
remove a (c ∷ cs) = let rest = remove a cs in if c.address == a then rest else c ∷ rest

-- `fresh` is the address that `new` returns.
unfoldable pub send_request_async :
    {S : Type 0}
    → (fresh : ℕ) → KvstoreRpcClient S
    → KvstoreRequest
    → ℕ
    → Exec AsyncState (Unit {0})
send_request_async fresh client request node_id s = elim (get_elem? client.servers node_id) [
  | none ↦ crash s
  | some stub ↦ pure tt (record s {
    calls = s.calls ++ record { address = fresh; request = request; deadline = none } ∷ [];
    context_deadline = some 500;
  })
]

unfoldable pub request_done_line : RequestType → Line
request_done_line get_req = get_completed
request_done_line put_req = put_completed
request_done_line stop_req = stop_completed
request_done_line (unexpected n) = unexpected_type n

unfoldable pub log_line : Line → Exec AsyncState (Unit {0})
log_line line = modify (λ s. record s { log = s.log ++ line ∷ [] })

unfoldable pub send_request_done : RequestType → Exec AsyncState (Unit {0})
unfolding request_done_line log_line
send_request_done type = log_line (request_done_line type)

-- the body of the loop behind `Next`: reading the status of a call that was freed is undefined
unfoldable pub complete : Completion → Exec AsyncState (Unit {0})
unfolding is_allocated remove send_request_done log_line
complete e s =
    if is_allocated e.tag s.calls
    then (if e.status_ok
        then (do
          send_request_done e.reply_type
          modify (λ t. record t { calls = remove e.tag t.calls }))
            s
        else log_line response_failure s)
    else crash s

-- the loop, over what `Next` delivers until it returns false
unfoldable pub async_complete_rpc : List Completion → Exec AsyncState (Unit {0})
unfolding complete
async_complete_rpc [] = pure tt
async_complete_rpc (e ∷ es) = do complete e; async_complete_rpc es
