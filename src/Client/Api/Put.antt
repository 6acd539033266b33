-- ===== src/Client/Api/Put.antt =====
-- `kv739_put`: the retries after redirects.
use scalable_key_value_store.Prelude.{
  ℕ, zero, suc, ◌-◌, ◌≤◌, ◌<◌, ◌≡◌, refl, ap, ◌∙◌, some, ℤ, arith,
}
use scalable_key_value_store.Client.Cpp.{
  Text, CharArray, c_string, returns, throws, leader_redirect, ◌>>=◌,
}
use scalable_key_value_store.Client.Rpc.{Rpc}
use scalable_key_value_store.Client.Connection.{Process, reconnect}
use scalable_key_value_store.Client.Api.{
  minus_one, retries, put_attempt, put_handler, put_loop, put_value, kv739_put,
}

module _ {W S : Type 0} (rpc : Rpc W S) (key value : Text) (old_value : CharArray) where
  -- so many attempts in a row are redirected, each to a leader that the client can connect to
  pub data Redirects : ℕ → Process W S → Process W S → Type 0 where
    stay : (s : Process W S) → Redirects zero s s
    follow :
        {n : ℕ} (s t u v : Process W S) (address : Text)
        → put_attempt rpc key value old_value s ≡ (throws (leader_redirect address), t)
        → reconnect rpc address (record t { current_leader = address }) ≡ (returns tt, u)
        → Redirects n u v
        → Redirects (suc n) s v

  loop_redirected :
      (k : ℕ) (s t u : Process W S) (address : Text)
      → put_attempt rpc key value old_value s ≡ (throws (leader_redirect address), t)
      → reconnect rpc address (record t { current_leader = address }) ≡ (returns tt, u)
      → put_loop rpc (suc k) key value old_value s ≡ put_loop rpc k key value old_value u
  unfolding put_loop put_handler ◌>>=◌
  loop_redirected k s t u address e f = rw (e, put_loop) (rw f)

  loop-Redirects :
      {n : ℕ} {s v : Process W S} (k : ℕ)
      → Redirects n s v
      → n ≤ k
      → put_loop rpc k key value old_value s ≡ put_loop rpc (k - n) key value old_value v
  loop-Redirects k (stay s) h =
      let e : k ≡ k - 0 = omega arith in ap (λ i. put_loop rpc i key value old_value s) e
  loop-Redirects zero (follow s t u v address e f r) h = absurd (omega arith)
  loop-Redirects (suc k) (follow {n = n} s t u v address e f r) h =
      let gap : k - n ≡ suc k - suc n = omega arith in
      loop_redirected k s t u address e f
      ∙ loop-Redirects k r (omega arith)
      ∙ ap (λ i. put_loop rpc i key value old_value v) gap

  loop_answered :
      (k : ℕ) (s t : Process W S) (result : ℤ × CharArray)
      → put_attempt rpc key value old_value s ≡ (returns result, t)
      → put_loop rpc (suc k) key value old_value s ≡ (returns result, t)
  unfolding put_loop ◌>>=◌
  loop_answered k s t result e = rw (e, put_loop)

  loop_over :
      (s : Process W S) → put_loop rpc 0 key value old_value s ≡ (returns (minus_one, old_value), s)
  unfolding put_loop ◌>>=◌
  loop_over s = refl

-- A PUT whose arguments are not null and hold texts.
module _ {W S : Type 0} (rpc : Rpc W S) (key value old_value : CharArray)
    (key_text value_text : Text) (key_ended : c_string key ≡ some key_text)
    (value_ended : c_string value ≡ some value_text) (s v : Process W S) where
  put-put_loop :
      (t : Process W S) (code : ℤ) (written : CharArray)
      → put_loop rpc retries key_text value_text old_value s ≡ (returns (code, written), t)
      → kv739_put rpc (some key) (some value) (some old_value) s ≡ (returns (code, some written), t)
  unfolding kv739_put put_value ◌>>=◌
  put-put_loop t code written e =
      rw (key_ended, kv739_put) (rw (value_ended, kv739_put) (rw (e, kv739_put)))

  -- A PUT whose arguments are not null and hold texts follows up to two redirects: the answer of the leader that the last of them names is the
  -- answer of the call.
  pub put_follows_leaders :
      {n : ℕ} (t : Process W S) (code : ℤ) (written : CharArray)
      → Redirects rpc key_text value_text old_value n s v
      → n < 3
      → put_attempt rpc key_text value_text old_value v ≡ (returns (code, written), t)
      → kv739_put rpc (some key) (some value) (some old_value) s ≡ (returns (code, some written), t)
  put_follows_leaders {n} t code written r few e =
      let left : retries - n ≡ suc (retries - n - 1) = omega arith in
      put-put_loop t code written (
        loop-Redirects rpc key_text value_text old_value retries r (omega arith)
        ∙ ap (λ i. put_loop rpc i key_text value_text old_value v) left
        ∙ loop_answered rpc key_text value_text old_value (retries - n - 1) v t (code, written) e)

  -- After a third redirect a PUT whose arguments are not null and hold texts gives up with -1, connected to the leader that the third
  -- redirect names, and the buffer is as it was.
  pub put_gives_up :
      Redirects rpc key_text value_text old_value 3 s v
      → kv739_put rpc (some key) (some value) (some old_value) s
        ≡ (returns (minus_one, some old_value), v)
  put_gives_up r = put-put_loop v minus_one old_value (
      loop-Redirects rpc key_text value_text old_value retries r (omega arith)
      ∙ loop_over rpc key_text value_text old_value v)
