-- ===== src/Server/Storage/Refines/Values.antt =====
-- storage/SQLiteStorage.java: what the methods on the counters and the keys do.
use scalable_key_value_store.Prelude.{ℕ, ◌≡◌, refl, ap, ◌∙◌, none, some}
use scalable_key_value_store.Server.Java.Laws.{Ends, Ends-bind, Ends-pure}
use scalable_key_value_store.Server.Sql.{Text, done, Engine}
use scalable_key_value_store.Server.Storage.Sqlite.{Tables, IsSqlite, set_value}
use scalable_key_value_store.Server.Storage.{
  get_commit_index, set_commit_index, get_last_applied, set_last_applied, update_key_value, get,
}
use scalable_key_value_store.Server.Storage.Refines.Encoding.{Store, Holds, tolerant-Ends}

module _ {D : Type 0} (sql : Engine D) (tables : D → Tables) (laws : IsSqlite sql tables) where
  module _ (a : Store) (d : D) (held : Holds tables a d) where
    pub get_commit_index-Ends :
        Ends (get_commit_index sql) d (λ n t. (n ≡ a.commit_index) × Holds tables a t)
    unfolding get_commit_index
    get_commit_index-Ends =
        Ends-bind _ _ d
          (tolerant-Ends none _ d (some a.commit_index)
            (λ k t. (k ≡ some a.commit_index) × Holds tables a t)
            (laws.commit_gives d ∙ ap (λ (r : Tables). done (some r.commit_index)) held)
            (refl, laws.commit_leaves d ∙ held))
          λ k t q. rw q.0 (Ends-pure _ t (refl, q.1))

    pub set_commit_index-Ends :
        (n : ℕ)
        → Ends (set_commit_index sql n) d (λ _ t. Holds tables (record a { commit_index = n }) t)
    unfolding set_commit_index
    set_commit_index-Ends n =
        tolerant-Ends tt _ d tt _ (laws.set_commit_gives n d)
          (laws.set_commit_leaves n d ∙ ap (λ (r : Tables). record r { commit_index = n }) held)

    pub get_last_applied-Ends :
        Ends (get_last_applied sql) d (λ n t. (n ≡ a.last_applied) × Holds tables a t)
    unfolding get_last_applied
    get_last_applied-Ends =
        Ends-bind _ _ d
          (tolerant-Ends none _ d (some a.last_applied)
            (λ k t. (k ≡ some a.last_applied) × Holds tables a t)
            (laws.applied_gives d ∙ ap (λ (r : Tables). done (some r.last_applied)) held)
            (refl, laws.applied_leaves d ∙ held))
          λ k t q. rw q.0 (Ends-pure _ t (refl, q.1))

    pub set_last_applied-Ends :
        (n : ℕ)
        → Ends (set_last_applied sql n) d (λ _ t. Holds tables (record a { last_applied = n }) t)
    unfolding set_last_applied
    set_last_applied-Ends n =
        tolerant-Ends tt _ d tt _ (laws.set_applied_gives n d)
          (laws.set_applied_leaves n d ∙ ap (λ (r : Tables). record r { last_applied = n }) held)

    pub update_key_value-Ends :
        (k v : Text)
        → Ends
            (update_key_value sql k v)
            d
            (λ _ t. Holds tables (record a { key_values = set_value k v a.key_values }) t)
    unfolding update_key_value
    update_key_value-Ends k v = tolerant-Ends tt _ d tt _ (laws.replace_gives k v d) (
        laws.replace_leaves k v d
        ∙ ap (λ (r : Tables). record r { key_values = set_value k v r.key_values }) held)

    pub get-Ends : (k : Text) → Ends (get sql k) d (λ o t. (o ≡ a.key_values k) × Holds tables a t)
    unfolding get
    get-Ends k =
        tolerant-Ends none _ d (a.key_values k) _
          (laws.value_gives k d ∙ ap (λ (r : Tables). done (r.key_values k)) held)
          (refl, laws.value_leaves k d ∙ held)
