-- ===== src/Server/Turns/Whole.antt =====
-- The calls of a thread, one after the other, are the method.
use scalable_key_value_store.Prelude.{ℕ, zero, suc, ◌≡◌, ◌∙◌, sym}
use scalable_key_value_store.Server.Java.{◌>>=◌}
use scalable_key_value_store.Server.Java.Monad.{bind_cong, bind_pure, bind_assoc, pure_left}
use scalable_key_value_store.Server.Sql.{Engine}
use scalable_key_value_store.Server.Raft.{RaftNode}
use scalable_key_value_store.Server.Replication.{apply_loop, apply_committed_entries}
use scalable_key_value_store.Server.Turns.{
  Applying, get_applied, get_commit, loop_head, apply, ended, advance, turns, rest,
}

module _ {D : Type 0} (sql : Engine D) where
  advance-rest : (a : Applying) (s : RaftNode D) → (advance sql a >>= rest sql) s ≡ rest sql a s
  unfolding advance rest apply_committed_entries apply_loop
  advance-rest get_applied s = bind_assoc _ _ _ s ∙ bind_cong _ _ _ s λ n u. pure_left _ _ u
  advance-rest (get_commit n) s = bind_assoc _ _ _ s ∙ bind_cong _ _ _ s λ m u. pure_left _ _ u
  advance-rest (loop_head zero n) s =
      bind_assoc _ _ _ s
      ∙ bind_cong _ _ _ s (λ _ u. pure_left _ _ u)
      ∙ bind_pure _ s
      ∙ sym (pure_left _ _ s)
  advance-rest (loop_head (suc k) n) s =
      bind_assoc _ _ _ s
      ∙ bind_cong _ _ _ s (λ o u.
        bind_assoc _ _ _ u
        ∙ bind_cong _ _ _ u (λ e v. pure_left _ _ v ∙ sym (bind_assoc _ _ _ v))
        ∙ sym (bind_assoc _ _ _ u))
      ∙ sym (bind_assoc _ _ _ s)
  advance-rest (apply k n e) s = bind_assoc _ _ _ s ∙ bind_cong _ _ _ s λ m u. pure_left _ _ u
  advance-rest ended s = pure_left _ _ s

  -- Wherever a thread is, any number of its calls and then the rest without a break do what the
  -- rest does; from its first call on, what the method does.
  turns-rest :
      (n : ℕ) (a : Applying) (s : RaftNode D) → (turns sql n a >>= rest sql) s ≡ rest sql a s
  unfolding turns
  turns-rest zero a s = pure_left a _ s
  turns-rest (suc n) a s = bind_assoc _ _ _ s ∙ bind_cong _ _ _ s (turns-rest n) ∙ advance-rest a s
