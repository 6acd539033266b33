-- ===== src/Server/Turns.antt =====
-- raft/RaftNode.java: applyCommittedEntries as its thread runs it, one call of the storage at a
-- time. The calls of updateCommitIndex by proposeEntry and sendAppendEntries hold no lock, so other
-- threads may run between any two.
pub mod Whole
pub mod Race
use scalable_key_value_store.Prelude.{ℕ, zero, suc, ◌-◌}
use scalable_key_value_store.Server.Java.{Exec, pure, non_null, ◌>>=◌, ◌>>◌}
use scalable_key_value_store.Server.Sql.{LogEntry, Engine}
use scalable_key_value_store.Server.Storage
use scalable_key_value_store.Server.Raft.{RaftNode, on_storage}
use scalable_key_value_store.Server.Replication.{
  apply_to_state_machine, apply_loop, apply_committed_entries,
}

-- what the thread calls next, with its local variables; `rounds` is how far `lastApplied` is below
-- `commitIndex` at the head of the loop
pub data Applying : Type 0 where
  get_applied : Applying
  get_commit : (last_applied : ℕ) → Applying
  loop_head : (rounds last_applied : ℕ) → Applying
  apply : (rounds last_applied : ℕ) → LogEntry → Applying
  ended : Applying

module _ {D : Type 0} (sql : Engine D) where
  unfoldable pub advance : Applying → Exec (RaftNode D) Applying
  advance get_applied = do
    last_applied ← on_storage (Storage.get_last_applied sql)
    pure (get_commit last_applied)
  advance (get_commit last_applied) = do
    commit_index ← on_storage (Storage.get_commit_index sql)
    pure (loop_head (commit_index - last_applied) last_applied)
  advance (loop_head zero last_applied) = do
    on_storage (Storage.set_last_applied sql last_applied)
    pure ended
  advance (loop_head (suc rounds) last_applied) = do
    found ← on_storage (Storage.get_log_entry sql (suc last_applied))
    entry ← non_null found
    pure (apply rounds (suc last_applied) entry)
  advance (apply rounds last_applied entry) = do
    apply_to_state_machine sql entry
    pure (loop_head rounds last_applied)
  advance ended = pure ended

  unfoldable pub turns : ℕ → Applying → Exec (RaftNode D) Applying
  turns zero a = pure a
  turns (suc n) a = advance a >>= turns n

  -- what is left of the method, without a break
  unfoldable pub rest : Applying → Exec (RaftNode D) (Unit {0})
  rest get_applied = apply_committed_entries sql
  rest (get_commit last_applied) = do
    commit_index ← on_storage (Storage.get_commit_index sql)
    applied ← apply_loop sql (commit_index - last_applied) last_applied
    on_storage (Storage.set_last_applied sql applied)
  rest (loop_head rounds last_applied) = do
    applied ← apply_loop sql rounds last_applied
    on_storage (Storage.set_last_applied sql applied)
  rest (apply rounds last_applied entry) = do
    apply_to_state_machine sql entry
    applied ← apply_loop sql rounds last_applied
    on_storage (Storage.set_last_applied sql applied)
  rest ended = pure tt
