-- ===== src/Server/Threads/Replay.antt =====
-- A store whose table is what its applied entries write is in order for threads.
use scalable_key_value_store.Prelude.{
  ℕ, zero, suc, ◌+◌, ◌≡◌, refl, ap, sym, ◌∙◌, Option, some, List, [], ◌∷◌, get_elem?, take, All,
  arith,
}
use scalable_key_value_store.Server.Sql.{Text, LogEntry}
use scalable_key_value_store.Server.Storage.Sqlite.{set_value}
use scalable_key_value_store.Server.Storage.Refines.{Store}
use scalable_key_value_store.Server.Replication.Spec.{apply_entries, empty_values, IsConsistent}
use scalable_key_value_store.Server.Threads.Guard.{Log, IsWritten}
use scalable_key_value_store.Server.Threads.Orderly.{IsOrdered, set_value-IsWritten}

abbrev Writes : Log → LogEntry → Type 0
Writes l e = IsWritten e.key e.value l

-- The entries from a place on.
All-from :
    (l es : Log) (k : ℕ) → ((i : ℕ) → get_elem? l (k + i) ≡ get_elem? es i) → All (Writes l) es
All-from l [] k h = tt
All-from l (e ∷ es) k h =
    let here : k + 0 ≡ k = omega arith in
    (
      record {
        place = k;
        entry = e;
        stands = sym (ap (get_elem? l) here) ∙ h 0;
        of_key = refl;
        of_value = refl;
      },
      All-from l es (suc k) λ i.
          let shift : suc k + i ≡ k + suc i = omega arith in ap (get_elem? l) shift ∙ h (suc i),
    )

All-take : {A : Type 0} (P : A → Type 0) (n : ℕ) (xs : List A) → All P xs → All P (take n xs)
All-take P zero xs h = tt
All-take P (suc n) [] h = tt
All-take P (suc n) (x ∷ xs) (h, hs) = (h, All-take P n xs hs)

apply_entries-IsWritten :
    (l es : Log) (values : Text → Option Text)
    → All (Writes l) es
    → ((k v : Text) → values k ≡ some v → IsWritten k v l)
    → (k v : Text) → apply_entries es values k ≡ some v
    → IsWritten k v l
unfolding apply_entries
apply_entries-IsWritten l [] values h old k v q = old k v q
apply_entries-IsWritten l (e ∷ es) values (h, hs) old k v q =
    apply_entries-IsWritten l es (set_value e.key e.value values) hs
      (set_value-IsWritten e.key e.value l values h old) k v q

pub IsConsistent-IsOrdered : (a : Store) → IsConsistent a → IsOrdered a
unfolding empty_values
IsConsistent-IsOrdered a c = record {
  committed = c.committed;
  applied = omega (arith, c.applied, c.committed);
  written = λ k v h.
      apply_entries-IsWritten a.log (take a.last_applied a.log) empty_values
        (All-take (Writes a.log) a.last_applied a.log
          (All-from a.log a.log 0 λ i. let z : 0 + i ≡ i = omega arith in ap (get_elem? a.log) z))
        (λ j w q. absurd (cc)) k v (sym (ap (λ f. f k) c.replayed) ∙ h);
}
