-- ===== src/Server/Storage/Refines/Log.antt =====
-- storage/SQLiteStorage.java: what the methods on the log do.
use scalable_key_value_store.Prelude.{
  zero, suc, ◌-◌, ℕ, suc, ◌+◌, ◌≡◌, refl, ap, ◌∙◌, some, List, [], ◌∷◌, ◌++◌, arith, length, take,
  drop, get_elem?,
}
use scalable_key_value_store.Server.Java.{◌>>=◌}
use scalable_key_value_store.Server.Java.Laws.{Ends-mono, Ends, Ends-bind, Ends-pure}
use scalable_key_value_store.Server.Sql.{LogEntry, done, Engine}
use scalable_key_value_store.Server.Storage.Sqlite.{
  Tables, IsSqlite, max_index, max_rowid, find_row, rows_below, rows_between,
}
use scalable_key_value_store.Server.Storage.Rows.{
  number, max_rowid-number, number-snoc, find_row-number, rows_below-number, rows_between-number,
  rows_between_all,
}
use scalable_key_value_store.Server.Storage.{
  get_last_log_term, last_term_at, append_log_entry, generated_key, get_log_entries, get_log_entry,
  get_last_log_index, max_or_zero, delete_log_entries_from,
}
use scalable_key_value_store.Server.Storage.Refines.Encoding.{
  Store, encode, Holds, checked-Ends, tolerant-Ends,
}

module _ {D : Type 0} (sql : Engine D) (tables : D → Tables) (laws : IsSqlite sql tables) where
  module _ (a : Store) (d : D) (held : Holds tables a d) where
    -- An appended entry gets the next index and goes to the end of the log.
    pub append_log_entry-Ends :
        (e : LogEntry)
        → Ends
            (append_log_entry sql e)
            d
            (λ n t. (n ≡ suc (length a.log)) × Holds tables (record a { log = a.log ++ e ∷ [] }) t)
    unfolding append_log_entry generated_key ◌>>=◌
    append_log_entry-Ends e =
        let next = ap suc (max_rowid-number a.log) in
        Ends-bind _ _ d
          (checked-Ends _ d (some (suc (length a.log)))
            (λ k t.
              (k ≡ some (suc (length a.log))) × Holds tables (record a { log = a.log ++ e ∷ [] }) t)
            (laws.insert_gives e d
              ∙ ap (λ (r : Tables). done (some (suc (max_rowid r.logs)))) held
              ∙ ap (λ n. done (some n)) next)
            (
              refl,
              laws.insert_leaves e d
                  ∙ ap
                      (λ (r : Tables). record r {
                        logs = r.logs ++ (suc (max_rowid r.logs), e) ∷ [];
                      })
                      held
                  ∙ ap (λ n. record (encode a) { logs = number 1 a.log ++ (n, e) ∷ [] })
                      (next ∙ shift)
                  ∙ ap (λ rows. record (encode a) { logs = rows }) (number-snoc 1 a.log e),
            ))
          λ k t q. rw q.0 (Ends-pure _ t (refl, q.1))
      where
        shift : suc (length a.log) ≡ 1 + length a.log
        shift = omega arith

    pub get_log_entry-Ends :
        (k : ℕ)
        → Ends (get_log_entry sql (suc k)) d (λ o t. (o ≡ get_elem? a.log k) × Holds tables a t)
    unfolding get_log_entry
    get_log_entry-Ends k =
        checked-Ends _ d (get_elem? a.log k) _
          (laws.select_log_gives (suc k) d
            ∙ ap (λ (r : Tables). done (find_row (suc k) r.logs)) held
            ∙ ap done (find_row-number (suc k) 1 k a.log (omega arith)))
          (refl, laws.select_log_leaves (suc k) d ∙ held)

    pub get_last_log_index-Ends :
        Ends (get_last_log_index sql) d (λ n t. (n ≡ length a.log) × Holds tables a t)
    unfolding get_last_log_index
    get_last_log_index-Ends =
        Ends-bind _ _ d
          (checked-Ends _ d (some (max_index (number 1 a.log)))
            (λ k t. (max_or_zero k ≡ length a.log) × Holds tables a t)
            (laws.max_gives d ∙ ap (λ (r : Tables). done (some (max_index r.logs))) held)
            (max_length a.log, laws.max_leaves d ∙ held))
          λ k t q. Ends-pure _ t q
      where
        max_length : (es : List LogEntry) → max_or_zero (some (max_index (number 1 es))) ≡ length es
        max_length [] = refl
        max_length (e ∷ es) = max_rowid-number (e ∷ es)

    -- All entries from an index on.
    pub get_log_entries-Ends :
        (j : ℕ)
        → Ends
            (get_log_entries sql (suc j) (length a.log))
            d
            (λ es t. (es ≡ drop j a.log) × Holds tables a t)
    unfolding get_log_entries
    get_log_entries-Ends j =
        checked-Ends _ d (drop j a.log) _
          (laws.select_logs_gives (suc j) (length a.log) d
            ∙ ap (λ (r : Tables). done (rows_between (suc j) (length a.log) r.logs)) held
            ∙ ap done
                (rows_between-number (suc j) (length a.log) 1 j a.log (omega arith) (omega arith)))
          (refl, laws.select_logs_leaves (suc j) (length a.log) d ∙ held)

    -- The same for an index that may be 0.
    pub get_log_entries_from-Ends :
        (n : ℕ)
        → Ends
            (get_log_entries sql n (length a.log))
            d
            (λ es t. (es ≡ drop (n - 1) a.log) × Holds tables a t)
    unfolding get_log_entries
    get_log_entries_from-Ends zero =
        checked-Ends _ d a.log _
          (laws.select_logs_gives 0 (length a.log) d
            ∙ ap (λ (r : Tables). done (rows_between 0 (length a.log) r.logs)) held
            ∙ ap done (rows_between_all 0 (length a.log) 1 a.log (omega arith) (omega arith)))
          (refl, laws.select_logs_leaves 0 (length a.log) d ∙ held)
    get_log_entries_from-Ends (suc j) =
        Ends-mono (get_log_entries-Ends j) λ es t q.
          let same : j ≡ suc j - 1 = omega arith in (q.0 ∙ ap (λ i. drop i a.log) same, q.1)

    -- The entries in front of an index are kept.
    pub delete_log_entries_from-Ends :
        (k : ℕ)
        → Ends
            (delete_log_entries_from sql (suc k))
            d
            (λ _ t. Holds tables (record a { log = take k a.log }) t)
    unfolding delete_log_entries_from
    delete_log_entries_from-Ends k = tolerant-Ends tt _ d tt _ (laws.delete_gives (suc k) d) (
        laws.delete_leaves (suc k) d
        ∙ ap (λ (r : Tables). record r { logs = rows_below (suc k) r.logs }) held
        ∙ ap (λ rows. record (encode a) { logs = rows })
            (rows_below-number (suc k) 1 k a.log (omega arith)))

  last_term_at-Ends :
      (a : Store) (n : ℕ) (d : D)
      → tables d ≡ encode a
      → Ends (last_term_at sql n) d (λ _ t. Unit {0} × (tables t ≡ encode a))
  unfolding last_term_at
  last_term_at-Ends a zero d h = Ends-pure 0 d (tt, h)
  last_term_at-Ends a (suc n) d h =
      Ends-bind _ _ d (get_log_entry-Ends a d h n) λ o t q. Ends-pure _ t (tt, q.1)

  pub get_last_log_term-Ends :
      (a : Store) (d : D)
      → tables d ≡ encode a
      → Ends (get_last_log_term sql) d (λ _ t. Unit {0} × (tables t ≡ encode a))
  unfolding get_last_log_term
  get_last_log_term-Ends a d h =
      Ends-bind _ _ d (get_last_log_index-Ends a d h) λ n t q. last_term_at-Ends a n t q.1
