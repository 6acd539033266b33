-- ===== src/Server/RaftState.antt =====
-- raft/RaftState.java: the role and the term of a node.
use scalable_key_value_store.Prelude.{ℕ, Bool, true, false, Option, none}
use scalable_key_value_store.Server.Sql.{Text}
use scalable_key_value_store.Server.Long.{increment}

pub data Role : Type 0 where
  follower candidate leader : Role

pub record RaftState : Type 0 where
  pub current_role : Role
  pub current_term : ℕ
  pub voted_for : Option Text

abbrev pub init : RaftState
init = record { current_role = follower; current_term = 0; voted_for = none }

abbrev pub is_leader_role : Role → Bool
is_leader_role leader = true
is_leader_role candidate = false
is_leader_role follower = false

unfoldable pub is_leader : RaftState → Bool
is_leader s = is_leader_role s.current_role

unfoldable pub become_follower : ℕ → RaftState → RaftState
become_follower term s = record { current_role = follower; current_term = term; voted_for = none }

unfoldable pub become_candidate : RaftState → RaftState
become_candidate s = record s { current_role = candidate; current_term = increment s.current_term }

unfoldable pub become_leader : RaftState → RaftState
become_leader s = record s { current_role = leader }

unfoldable pub set_current_term : ℕ → RaftState → RaftState
set_current_term term s = record s { current_term = term }
