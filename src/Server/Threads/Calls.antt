-- ===== src/Server/Threads/Calls.antt =====
-- The accesses of a thread to what it shares with others, and programs over them. A method of the
-- storage is one access, since it is one statement on the one connection; `getLastLogTerm`, which
-- makes two, is taken apart. A node without peers makes no `sendAppendEntries`, and becomes leader
-- with no entry to set, so these are one access each.
use scalable_key_value_store.Prelude.{ℕ, Bool, Option}
use scalable_key_value_store.Server.Java.{Throwable}
use scalable_key_value_store.Server.Sql.{Text, LogEntry}
use scalable_key_value_store.Server.RaftState.{Role}
use scalable_key_value_store.Server.Raft.{NodeInfo, Dict}

pub data Call : Type 0 where
  -- the fields of the node
  read_leads : Call
  read_term : Call
  read_peers : Call
  -- the loop over `matchIndex.values()`, against `peers.size()`
  read_replicated : ℕ → Call
  write_role : Role → Call
  write_term : ℕ → Call
  write_vote : Call
  write_indices : ℕ → Call
  send : (delay : ℕ) → NodeInfo → Call
  -- the storage
  get_last_log_index : Call
  get_log_entry : ℕ → Call
  append_log_entry : LogEntry → Call
  get_commit_index : Call
  set_commit_index : ℕ → Call
  get_last_applied : Call
  set_last_applied : ℕ → Call
  update_key_value : Text → Text → Call
  get_value : Text → Call

abbrev pub Answer : Call → Type 0
Answer read_leads = Bool
Answer read_term = ℕ
Answer read_peers = Dict NodeInfo
Answer (read_replicated n) = Bool
Answer (write_role role) = Unit {0}
Answer (write_term term) = Unit {0}
Answer write_vote = Unit {0}
Answer (write_indices last) = Unit {0}
Answer (send delay peer) = Unit {0}
Answer get_last_log_index = ℕ
Answer (get_log_entry n) = Option LogEntry
Answer (append_log_entry e) = ℕ
Answer get_commit_index = ℕ
Answer (set_commit_index n) = Unit {0}
Answer get_last_applied = ℕ
Answer (set_last_applied n) = Unit {0}
Answer (update_key_value k v) = Unit {0}
Answer (get_value k) = Option Text

-- what a thread has left to do
pub data Prog (A : Type 0) : Type 0 where
  ended : A → Prog A
  failed : Throwable → Prog A
  call : (c : Call) → (Answer c → Prog A) → Prog A

abbrev pub ask : (c : Call) → Prog (Answer c)
ask c = call c ended

module _ {A B : Type 0} where
  abbrev pub and_then : Prog A → (A → Prog B) → Prog B
  and_then (ended a) f = f a
  and_then (failed e) f = failed e
  and_then (call c k) f = call c (λ x. and_then (k x) f)

  infixl 5 ◌>>=◌ ◌>>◌
  abbrev pub ◌>>=◌ : Prog A → (A → Prog B) → Prog B
  p >>= f = and_then p f

  abbrev pub ◌>>◌ : Prog A → Prog B → Prog B
  p >> q = p >>= λ _. q
