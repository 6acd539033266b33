-- ===== src/Server/Threads/Safe.antt =====
-- Each method asks only for what a thread may ask for, whatever others append in between.
use scalable_key_value_store.Prelude.{
  ℕ, zero, suc, ◌+◌, ◌-◌, ◌≤◌, ◌<◌, ◌≡◌, refl, ap, sym, ◌∙◌, subst, Bool, true, false, Option, none,
  some, List, [], ◌∷◌, ◌==◌, length, get_elem?, if◌then◌else◌, arith,
}
use scalable_key_value_store.Server.Sql.{Text, LogEntry}
use scalable_key_value_store.Server.Raft.{NodeInfo, Dict}
use scalable_key_value_store.Server.Service.{get_response}
use scalable_key_value_store.Server.Threads.Calls.{Prog, and_then, ask, ◌>>=◌, get_log_entry}
use scalable_key_value_store.Server.Threads.Programs.{
  non_null, apply_loop, apply_committed_entries, commit_if, term_at, commit_entry, commit_loop,
  update_commit_index, send_all, replicate_entry, append_proposal, propose_entry, put, get,
}
use scalable_key_value_store.Server.Threads.Guard.{
  IsSafe-weaken, Log, Extends, Extends-trans, Extends-le, Extends-IsWritten, IsWritten, IsSafe,
  IsSafe-bind,
}

get_elem?-lt :
    {A : Type 0} (xs : List A) (n : ℕ) → n < length xs → (a : A) × (get_elem? xs n ≡ some a)
get_elem?-lt [] n h = absurd (omega arith)
get_elem?-lt (x ∷ xs) zero h = (x, refl)
get_elem?-lt (x ∷ xs) (suc n) h = get_elem?-lt xs n (omega arith)

abbrev pub Any : {A : Type 0} → A → Log → Type 0
Any a l = Unit

module _ {A : Type 0} (Q : A → Log → Type 0) where
  pub if-IsSafe :
      (b : Bool) (p q : Prog A) (l : Log)
      → IsSafe Q p l
      → IsSafe Q q l
      → IsSafe Q (if b then p else q) l
  if-IsSafe true p q l hp hq = hp
  if-IsSafe false p q l hp hq = hq

  -- An entry within the log is there.
  read-IsSafe :
      (n : ℕ) (f : LogEntry → Prog A) (l : Log)
      → n < length l
      → ((e : LogEntry) (after : Log)
          → Extends l after
          → get_elem? after n ≡ some e
          → IsSafe Q (f e) after)
      → IsSafe Q (ask (get_log_entry (suc n)) >>= λ o. non_null o >>= f) l
  unfolding IsSafe non_null
  read-IsSafe n f l below k = λ now e. (
    omega arith,
    λ o after e' told.
        let e'' = Extends-trans e e' in
        let (x, found) = get_elem?-lt after n (omega (arith, Extends-le e'')) in
        let same : suc n - 1 ≡ n = omega arith in
        subst (λ o. IsSafe Q (and_then (non_null o) f) after)
          (sym (told ∙ ap (get_elem? after) same ∙ found)) (k x after e'' found),
  )

apply_loop-IsSafe :
    (rounds n : ℕ) (l : Log)
    → n + rounds ≤ length l
    → IsSafe (λ m after. m ≤ length after) (apply_loop rounds n) l
unfolding apply_loop IsSafe
apply_loop-IsSafe zero n l fits = omega arith
apply_loop-IsSafe (suc rounds) n l fits =
    read-IsSafe _ n _ l (omega arith) λ e after grown found now e'. (
      Extends-IsWritten e'
          (record { place = n; entry = e; stands = found; of_key = refl; of_value = refl }),
      λ _ last e'' told.
          apply_loop-IsSafe rounds (suc n) last
            (omega (arith, Extends-le grown, Extends-le e', Extends-le e'')),
    )

apply_committed-IsSafe : (l : Log) → IsSafe Any apply_committed_entries l
unfolding apply_committed_entries IsSafe
apply_committed-IsSafe l now e = (
  tt,
  λ n l1 e1 applied l2 e2. (
    tt,
    λ m l3 e3 committed.
        IsSafe-bind (λ m after. m ≤ length after) Any (apply_loop (m - n) n) _ l3
          (apply_loop-IsSafe (m - n) n l3
            (omega (arith, applied, committed, Extends-le e2, Extends-le e3)))
          λ k l4 e4 fits l5 e5. (omega (arith, fits, Extends-le e5), λ _ l6 e6 told. tt),
  ),
)

commit_if-IsSafe : (n : ℕ) (b : Bool) (l : Log) → n ≤ length l → IsSafe Any (commit_if n b) l
unfolding commit_if IsSafe
commit_if-IsSafe n false l fits = tt
commit_if-IsSafe n true l fits = λ now e. (
  tt,
  λ enough l1 e1 told.
      if-IsSafe Any enough _ _ l1
        (λ l2 e2. (
          omega (arith, fits, Extends-le e, Extends-le e1, Extends-le e2),
          λ _ l3 e3 told'. apply_committed-IsSafe l3,
        ))
        tt,
)

term_at-IsSafe : (n : ℕ) (l : Log) → n < length l → IsSafe Any (term_at (suc n)) l
unfolding term_at IsSafe
term_at-IsSafe n l below = read-IsSafe Any n _ l below λ e after grown found. tt

commit_entry-IsSafe : (n term : ℕ) (l : Log) → n ≤ length l → IsSafe Any (commit_entry n term) l
unfolding commit_entry IsSafe
commit_entry-IsSafe n term l fits now e = (
  tt,
  λ current l1 e1 told.
      commit_if-IsSafe n (term == current) l1 (omega (arith, fits, Extends-le e, Extends-le e1)),
)

commit_loop-IsSafe :
    (rounds n : ℕ) (l : Log) → n + rounds ≤ length l → IsSafe Any (commit_loop rounds (suc n)) l
unfolding commit_loop
commit_loop-IsSafe zero n l fits = unfold IsSafe in tt
commit_loop-IsSafe (suc rounds) n l fits =
    IsSafe-bind Any Any (term_at (suc n)) _ l (term_at-IsSafe n l (omega arith)) λ term l1 e1 _.
      IsSafe-bind Any Any (commit_entry (suc n) term) _ l1
        (commit_entry-IsSafe (suc n) term l1 (omega (arith, Extends-le e1)))
        λ _ l2 e2 _.
          commit_loop-IsSafe rounds (suc n) l2 (omega (arith, Extends-le e1, Extends-le e2))

update-IsSafe : (l : Log) → IsSafe Any update_commit_index l
unfolding update_commit_index IsSafe
update-IsSafe l now e = (
  tt,
  λ last l1 e1 ends l2 e2. (
    tt,
    λ commit l3 e3 within.
        commit_loop-IsSafe (last - commit) commit l3
          (omega (arith, ends, within, Extends-le e2, Extends-le e3)),
  ),
)

send_none-IsSafe :
    (random : Text → ℕ) (peers : Dict NodeInfo) (l : Log)
    → peers ≡ []
    → IsSafe Any (send_all random peers) l
unfolding send_all
send_none-IsSafe random peers l none_there =
    subst (λ ps. IsSafe Any (send_all random ps) l) (sym none_there) (unfold IsSafe in tt)

replicate-IsSafe :
    (random : Text → ℕ) (l : Log) → IsSafe (λ b _. b ≡ true) (replicate_entry random) l
unfolding replicate_entry IsSafe
replicate-IsSafe random l now e = (
  tt,
  λ peers l1 e1 none_there.
      IsSafe-bind Any _ (send_all random peers) _ l1 (send_none-IsSafe random peers l1 none_there)
        λ _ l2 e2 _.
          IsSafe-bind Any _ update_commit_index _ l2 (update-IsSafe l2) λ _ l3 e3 _. refl,
)

append-IsSafe :
    (key value : Text) (l : Log)
    → IsSafe (λ _ after. IsWritten key value after) (append_proposal key value) l
unfolding append_proposal IsSafe
append-IsSafe key value l now e = (
  tt,
  λ term l1 e1 _ l2 e2. (
    tt,
    λ n l3 e3 written l4 e4. (tt, λ last l5 e5 _. Extends-IsWritten (Extends-trans e4 e5) written),
  ),
)

propose-IsSafe :
    (random : Text → ℕ) (key value : Text) (l : Log)
    → IsSafe (λ b after. b ≡ true → IsWritten key value after) (propose_entry random key value) l
unfolding propose_entry
propose-IsSafe random key value l =
    unfold IsSafe in
    λ now e. (
      tt,
      λ leading l1 e1 _.
          if-IsSafe _ leading _ _ l1
            (IsSafe-bind _ _ (append_proposal key value) _ l1 (append-IsSafe key value l1)
              λ _ l2 e2 written.
                IsSafe-weaken _ _ (replicate_entry random) l2 (replicate-IsSafe random l2)
                  λ b after e3 _ _. Extends-IsWritten e3 written)
            (λ h. absurd (cc)),
    )

-- A PUT that succeeds is in the log.
pub put-IsSafe :
    (random : Text → ℕ) (key value : Text) (l : Log)
    → IsSafe (λ r after. r.success ≡ true → IsWritten key value after) (put random key value) l
unfolding put
put-IsSafe random key value l =
    IsSafe-bind _ _ (propose_entry random key value) _ l (propose-IsSafe random key value l)
      λ b after e h. unfold IsSafe in h

-- A value that a GET finds is one that the log writes to the key.
pub get-IsSafe :
    (key : Text) (l : Log)
    → IsSafe (λ r after. r.found ≡ true → IsWritten key r.value after) (get key) l
unfolding get IsSafe
get-IsSafe key l now e = (tt, λ o l1 e1 told. answer o told)
  where
    answer :
        {l1 : Log} (o : Option Text)
        → ((v : Text) → o ≡ some v → IsWritten key v l1)
        → (get_response o).found ≡ true
        → IsWritten key (get_response o).value l1
    answer none told h = absurd (cc)
    answer (some v) told h = told v refl
