-- ===== src/Server/Replication/Spec.antt =====
-- What the log, the counters and the dictionary of a node should become, as functions on lists.
use Prim.Native.Nat.{min}
use scalable_key_value_store.Prelude.{
  length-append, take_front, ℕ, zero, suc, ◌+◌, ◌-◌, ◌≤◌, ◌<◌, ◌≡◌, refl, ap, sym, ◌∙◌, Bool, true,
  false, Option, none, some, List, [], ◌∷◌, ◌++◌, ◌==◌, ltb, map, if◌then◌else◌, arith, length,
  take, drop, get_elem?, length-take, take-nil, take-take, take-length, Bool-cases, inl, inr,
}
use scalable_key_value_store.Server.Sql.{Text, LogEntry}
use scalable_key_value_store.Server.Storage.Sqlite.{set_value}
use scalable_key_value_store.Server.Storage.Refines.{Store}

abbrev pub Values : Type 0
Values = Text → Option Text

-- The entries written to a dictionary, oldest first.
unfoldable pub apply_entries : List LogEntry → Values → Values
apply_entries [] values = values
apply_entries (e ∷ es) values = apply_entries es (set_value e.key e.value values)

-- New entries against those that stand at their places: entries are kept as long as the terms
-- agree, and the first that does not agree is replaced with all that follow.
unfoldable pub reconcile : List LogEntry → List LogEntry → List LogEntry
reconcile old [] = old
reconcile [] (e ∷ es) = e ∷ es
reconcile (o ∷ old) (e ∷ es) = if o.term == e.term then o ∷ reconcile old es else e ∷ es

abbrev pub terms : List LogEntry → List ℕ
terms = map (λ (e : LogEntry). e.term)

reconcile-nil : (es : List LogEntry) → reconcile [] es ≡ es
unfolding reconcile
reconcile-nil [] = refl
reconcile-nil (e ∷ es) = refl

pub reconcile-old : (old : List LogEntry) → reconcile old [] ≡ old
unfolding reconcile
reconcile-old [] = refl
reconcile-old (o ∷ old) = refl

-- Against the end of a log, new entries are appended.
pub splice_end :
    (k : ℕ) (l : List LogEntry) (e : LogEntry) (es : List LogEntry)
    → length l ≡ k
    → take (suc k) (l ++ e ∷ []) ++ reconcile (drop (suc k) (l ++ e ∷ [])) es ≡ l ++ e ∷ es
splice_end zero [] e es h = ap (◌∷◌ e) (reconcile-nil es)
splice_end zero (x ∷ l) e es h = absurd (omega arith)
splice_end (suc k) [] e es h = absurd (omega arith)
splice_end (suc k) (x ∷ l) e es h = ap (◌∷◌ x) (splice_end k l e es (omega arith))

unfoldable pub empty_values : Values
empty_values k = none

-- The counters are in order, and the dictionary is what the applied entries write.
pub record IsConsistent (a : Store) : Type 0 where
  pub applied : a.last_applied ≤ a.commit_index
  pub committed : a.commit_index ≤ length a.log
  pub replayed : a.key_values ≡ apply_entries (take a.last_applied a.log) empty_values

-- All committed entries applied.
abbrev pub catch_up : Store → Store
catch_up a = record a {
  last_applied = a.commit_index;
  key_values = apply_entries (take a.commit_index a.log) empty_values;
}

pub apply_entries-append :
    (xs ys : List LogEntry) (v : Values)
    → apply_entries (xs ++ ys) v ≡ apply_entries ys (apply_entries xs v)
unfolding apply_entries
apply_entries-append [] ys v = refl
apply_entries-append (x ∷ xs) ys v = apply_entries-append xs ys (set_value x.key x.value v)

-- The entry at a position, and what follows it.
pub drop_step :
    (n : ℕ) (l : List LogEntry)
    → n < length l
    → (e : LogEntry) × (get_elem? l n ≡ some e)
      × (drop n l ≡ e ∷ drop (suc n) l)
      × (take (suc n) l ≡ take n l ++ e ∷ [])
drop_step n [] h = absurd (omega arith)
drop_step zero (x ∷ l) h = (x, refl, refl, refl)
drop_step (suc n) (x ∷ l) h =
    let (e, at, behind, front) = drop_step n l (omega arith) in (e, at, behind, ap (◌∷◌ x) front)

pub take_add : (m n : ℕ) (l : List LogEntry) → take (m + n) l ≡ take m l ++ take n (drop m l)
take_add zero n l = let e : 0 + n ≡ n = omega arith in ap (λ k. take k l) e
take_add (suc m) n [] = take-nil (suc m + n) ∙ sym (take-nil n)
take_add (suc m) n (x ∷ l) =
    let e : suc m + n ≡ suc (m + n) = omega arith in
    ap (λ k. take k (x ∷ l)) e ∙ ap (◌∷◌ x) (take_add m n l)

-- To apply what was committed and not applied is to catch up.
pub apply_rest :
    (a : Store)
    → IsConsistent a
    → apply_entries
        (take (a.commit_index - a.last_applied) (drop a.last_applied a.log))
        a.key_values
      ≡ apply_entries (take a.commit_index a.log) empty_values
apply_rest a c =
    ap (apply_entries (take (a.commit_index - a.last_applied) (drop a.last_applied a.log)))
      c.replayed
    ∙ sym (apply_entries-append (take a.last_applied a.log) _ empty_values)
    ∙ ap (λ l. apply_entries l empty_values)
        (sym (take_add a.last_applied (a.commit_index - a.last_applied) a.log))
    ∙ ap (λ k. apply_entries (take k a.log) empty_values) whole
  where
    whole : a.last_applied + (a.commit_index - a.last_applied) ≡ a.commit_index
    whole = omega (arith, c.applied)

pub catch_up-IsConsistent : (a : Store) → a.commit_index ≤ length a.log → IsConsistent (catch_up a)
catch_up-IsConsistent a h = record { applied = omega arith; committed = h; replayed = refl }

-- A log with other entries from an index on.
abbrev pub spliced : Store → ℕ → List LogEntry → Store
spliced a k rest = record a { log = take k a.log ++ rest }

-- whether a log holds an entry of that term in front of the new ones
abbrev pub has_term : Option LogEntry → ℕ → Bool
has_term none term = false
has_term (some e) term = e.term == term

unfoldable pub is_match : List LogEntry → ℕ → ℕ → Bool
is_match log zero term = true
is_match log (suc prev) term = has_term (get_elem? log prev) term

-- A log with new entries behind an index.
abbrev pub appended : Store → ℕ → List LogEntry → Store
appended a prev es = spliced a prev (reconcile (drop prev a.log) es)

-- The commit index raised to that of the leader, as far as the log goes, and all of it applied.
unfoldable pub follow : ℕ → Store → Store
follow leader_commit a =
    if ltb a.commit_index leader_commit
    then catch_up (record a { commit_index = min leader_commit (length a.log) })
    else a

-- New entries that leave the committed ones in place.
abbrev pub KeepsCommitted : Store → ℕ → List LogEntry → Type 0
KeepsCommitted a prev es = take a.commit_index (appended a prev es).log ≡ take a.commit_index a.log

committed_room : (c : ℕ) (l m : List LogEntry) → c ≤ length l → take c m ≡ take c l → c ≤ length m
committed_room c l m h e = omega (arith, length-take c l, length-take c m, ap length e)

pub appended-IsConsistent :
    (a : Store) (prev : ℕ) (es : List LogEntry)
    → IsConsistent a
    → KeepsCommitted a prev es
    → IsConsistent (appended a prev es)
appended-IsConsistent a prev es c k =
    let l = (appended a prev es).log in
    record {
      applied = c.applied;
      committed = committed_room a.commit_index a.log l c.committed k;
      replayed =
          c.replayed
          ∙ ap (λ m. apply_entries m empty_values)
              (sym (take-take a.last_applied a.commit_index a.log c.applied)
                ∙ ap (take a.last_applied) (sym k)
                ∙ take-take a.last_applied a.commit_index l c.applied);
    }

-- Behind the splice the log has the terms of the new entries.
reconcile-terms : (old es : List LogEntry) → terms (take (length es) (reconcile old es)) ≡ terms es
unfolding reconcile
reconcile-terms old [] = refl
reconcile-terms [] (e ∷ es) = ap terms (take-length (e ∷ es))
reconcile-terms (o ∷ old) (e ∷ es) = elim (Bool-cases (o.term == e.term)) [
  | inl agree ↦ rw agree (
      let same : o.term ≡ e.term = ground arith in
      ap (◌∷◌ o.term) (reconcile-terms old es) ∙ ap (λ t. t ∷ terms es) same)
  | inr differ ↦ rw differ (ap terms (take-length (e ∷ es)))
]

map-append : (xs ys : List LogEntry) → terms (xs ++ ys) ≡ terms xs ++ terms ys
map-append [] ys = refl
map-append (x ∷ xs) ys = ap (◌∷◌ x.term) (map-append xs ys)

take-append :
    (n m : ℕ) (xs ys : List LogEntry) → length xs ≡ n → take (n + m) (xs ++ ys) ≡ xs ++ take m ys
take-append n m [] ys h = let e : n + m ≡ m = omega arith in ap (λ k. take k ys) e
take-append zero m (x ∷ xs) ys h = absurd (omega arith)
take-append (suc n) m (x ∷ xs) ys h =
    let e : suc n + m ≡ suc (n + m) = omega arith in
    ap (λ k. take k (x ∷ xs ++ ys)) e ∙ ap (◌∷◌ x) (take-append n m xs ys (omega arith))

follow-log : (leader_commit : ℕ) (a : Store) → (follow leader_commit a).log ≡ a.log
unfolding follow
follow-log leader_commit a = ground arith

-- Up to the last of the new entries the log has the terms that the leader's has.
pub appended-terms :
    (a : Store) (prev leader_commit : ℕ) (es : List LogEntry)
    → prev ≤ length a.log
    → terms (take (prev + length es) (follow leader_commit (appended a prev es)).log)
      ≡ terms (take prev a.log) ++ terms es
appended-terms a prev leader_commit es h =
    let rest = reconcile (drop prev a.log) es in
    ap (λ l. terms (take (prev + length es) l)) (follow-log leader_commit (appended a prev es))
    ∙ ap terms (
        take-append prev (length es) (take prev a.log) rest (omega (arith, length-take prev a.log)))
    ∙ map-append (take prev a.log) (take (length es) rest)
    ∙ ap (λ ts. terms (take prev a.log) ++ ts) (reconcile-terms (drop prev a.log) es)

-- One more entry at the end.
pub grown-IsConsistent :
    (a : Store) (e : LogEntry) → IsConsistent a → IsConsistent (record a { log = a.log ++ e ∷ [] })
grown-IsConsistent a e c = record {
  applied = c.applied;
  committed = omega (arith, c.committed, length-append a.log (e ∷ []));
  replayed =
      c.replayed
      ∙ ap (λ l. apply_entries l empty_values)
          (sym (take_front a.last_applied a.log e (omega (arith, c.applied, c.committed))));
}

pub follow-IsConsistent :
    (leader_commit : ℕ) (a : Store) → IsConsistent a → IsConsistent (follow leader_commit a)
unfolding follow
follow-IsConsistent leader_commit a c = elim (Bool-cases (ltb a.commit_index leader_commit)) [
  | inl behind ↦ rw behind (
      catch_up-IsConsistent (record a { commit_index = min leader_commit (length a.log) })
        (omega arith))
  | inr level ↦ rw level c
]
