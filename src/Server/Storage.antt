-- ===== src/Server/Storage.antt =====
pub mod Rows
pub mod Sqlite
pub mod Refines
-- storage/SQLiteStorage.java: each method with its handler of `SQLException`. The methods on the
-- log throw a `RuntimeException` then; the others print a stack trace and go on with a default.
use scalable_key_value_store.Prelude.{
  ℕ, zero, suc, Option, none, some, List, [], ltb, if◌then◌else◌,
}
use scalable_key_value_store.Server.Java.{
  runtime_exception, Outcome, returns, throws, Exec, pure, throw, ◌>>=◌, ◌>>◌,
}
use scalable_key_value_store.Server.Sql.{Text, LogEntry, Sql, done, sql_exception, Engine}

-- catch (SQLException e) { throw new RuntimeException(...); }
abbrev pub or_throw : {A : Type 0} → Sql A → Outcome A
or_throw (done a) = returns a
or_throw sql_exception = throws runtime_exception

-- catch (SQLException e) { e.printStackTrace(); }, and the method's last `return`
abbrev pub or_default : {A : Type 0} → A → Sql A → Outcome A
or_default a (done b) = returns b
or_default a sql_exception = returns a

module _ {D A : Type 0} where
  unfoldable pub checked : (D → Sql A × D) → Exec D A
  checked m d = let (r, d') = m d in (or_throw r, d')

  unfoldable pub tolerant : A → (D → Sql A × D) → Exec D A
  tolerant a m d = let (r, d') = m d in (or_default a r, d')

-- `getLong` on a row that may be missing, and `getLong` on a NULL
abbrev pub long_or_zero : Option ℕ → ℕ
long_or_zero none = 0
long_or_zero (some n) = n

abbrev pub max_or_zero : Option (Option ℕ) → ℕ
max_or_zero none = 0
max_or_zero (some n) = long_or_zero n

-- `entry != null ? entry.getTerm() : 0`
abbrev pub term_or_zero : Option LogEntry → ℕ
term_or_zero none = 0
term_or_zero (some entry) = entry.term

module _ {D : Type 0} (sql : Engine D) where
  -- the constructor, on an open connection
  unfoldable pub initialize_database : Exec D (Unit {0})
  initialize_database = do
    checked sql.create_kv_store
    checked sql.create_logs
    checked sql.create_state
    checked sql.insert_state

  unfoldable pub generated_key : Option ℕ → Exec D ℕ
  unfolding pure throw
  generated_key none = throw runtime_exception
  generated_key (some id) = pure id

  unfoldable pub append_log_entry : LogEntry → Exec D ℕ
  append_log_entry entry = do key ← checked (sql.insert_log entry); generated_key key

  unfoldable pub get_log_entries : ℕ → ℕ → Exec D (List LogEntry)
  get_log_entries start_idx end_idx = checked (sql.select_logs start_idx end_idx)

  unfoldable pub get_log_entry : ℕ → Exec D (Option LogEntry)
  get_log_entry index = checked (sql.select_log index)

  unfoldable pub get_last_log_index : Exec D ℕ
  get_last_log_index = do row ← checked sql.select_max_index; pure (max_or_zero row)

  unfoldable pub last_term_at : ℕ → Exec D ℕ
  last_term_at zero = pure 0
  last_term_at (suc n) = do entry ← get_log_entry (suc n); pure (term_or_zero entry)

  unfoldable pub get_last_log_term : Exec D ℕ
  get_last_log_term = do last_index ← get_last_log_index; last_term_at last_index

  unfoldable pub get_commit_index : Exec D ℕ
  get_commit_index = do row ← tolerant none sql.select_commit_index; pure (long_or_zero row)

  unfoldable pub set_commit_index : ℕ → Exec D (Unit {0})
  set_commit_index n = tolerant tt (sql.update_commit_index n)

  unfoldable pub get_last_applied : Exec D ℕ
  get_last_applied = do row ← tolerant none sql.select_last_applied; pure (long_or_zero row)

  unfoldable pub set_last_applied : ℕ → Exec D (Unit {0})
  set_last_applied n = tolerant tt (sql.update_last_applied n)

  unfoldable pub delete_log_entries_from : ℕ → Exec D (Unit {0})
  delete_log_entries_from index = tolerant tt (sql.delete_logs index)

  unfoldable pub update_key_value : Text → Text → Exec D (Unit {0})
  update_key_value key value = tolerant tt (sql.replace_key_value key value)

  unfoldable pub put : Text → Text → Exec D (Unit {0})
  put key value = update_key_value key value

  unfoldable pub get : Text → Exec D (Option Text)
  get key = tolerant none (sql.select_value key)

  unfoldable pub close : Exec D (Unit {0})
  close = tolerant tt sql.close_connection
