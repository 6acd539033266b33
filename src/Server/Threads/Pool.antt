-- ===== src/Server/Threads/Pool.antt =====
-- Any number of threads over one node: calls of clients and election tasks arrive, and in any order
-- a thread makes its next access.
use scalable_key_value_store.Prelude.{ℕ, zero, suc, List, [], ◌∷◌}
use scalable_key_value_store.Server.Sql.{Text, Engine}
use scalable_key_value_store.Server.Raft.{RaftNode}
use scalable_key_value_store.Server.Service.{GetResponse, PutResponse}
use scalable_key_value_store.Server.Threads.Calls.{Prog, ended, ◌>>=◌}
use scalable_key_value_store.Server.Threads.Programs.{put, get, leader_election_task}
use scalable_key_value_store.Server.Threads.Perform.{advance}

pub data Request : Type 0 where
  put_request : (random : Text → ℕ) → Text → Text → Request
  get_request : Text → Request
  election_request : Request

pub data Reply : Type 0 where
  put_reply : PutResponse → Reply
  get_reply : GetResponse → Reply
  no_reply : Reply

unfoldable pub program : Request → Prog Reply
program (put_request random key value) = put random key value >>= λ r. ended (put_reply r)
program (get_request key) = get key >>= λ r. ended (get_reply r)
program election_request = leader_election_task >>= λ _. ended no_reply

abbrev pub Thread : Type 0
Thread = Request × Prog Reply

pub record Pool (D : Type 0) : Type 0 where
  pub node : RaftNode D
  pub threads : List Thread

pub data Move : Type 0 where
  arrives : Request → Move
  -- the access of the thread at a place in the list
  moves : ℕ → Move

module _ {D : Type 0} (sql : Engine D) where
  unfoldable pub advance_at : ℕ → List Thread → RaftNode D → List Thread × RaftNode D
  advance_at i [] s = ([], s)
  advance_at zero ((r, p) ∷ ts) s = let (p', s') = advance sql p s in ((r, p') ∷ ts, s')
  advance_at (suc i) (t ∷ ts) s = let (ts', s') = advance_at i ts s in (t ∷ ts', s')

  unfoldable pub move : Move → Pool D → Pool D
  move (arrives r) w = record w { threads = (r, program r) ∷ w.threads }
  move (moves i) w =
      let (ts, s) = advance_at i w.threads w.node in record { node = s; threads = ts }

  unfoldable pub interleave : List Move → Pool D → Pool D
  interleave [] w = w
  interleave (m ∷ ms) w = interleave ms (move m w)
