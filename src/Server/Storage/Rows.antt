-- ===== src/Server/Storage/Rows.antt =====
-- Rows that are numbered from 1 without a gap: the table `logs` as the server keeps it.
use Prim.Native.Nat.{max}
use scalable_key_value_store.Prelude.{
  ℕ, zero, suc, ◌+◌, ◌≤◌, ◌≡◌, refl, ap, ◌∙◌, List, [], ◌∷◌, ◌++◌, arith, length, take, drop,
  get_elem?,
}
use scalable_key_value_store.Server.Sql.{LogEntry}
use scalable_key_value_store.Server.Storage.Sqlite.{max_rowid, find_row, rows_below, rows_between}

abbrev pub number : ℕ → List LogEntry → List (ℕ × LogEntry)
number i [] = []
number i (e ∷ es) = (i, e) ∷ number (suc i) es

abbrev pub unnumber : List (ℕ × LogEntry) → List LogEntry
unnumber [] = []
unnumber (row ∷ rows) = row.1 ∷ unnumber rows

pub unnumber-number : (i : ℕ) (es : List LogEntry) → unnumber (number i es) ≡ es
unnumber-number i [] = refl
unnumber-number i (e ∷ es) = ap (◌∷◌ e) (unnumber-number (suc i) es)

max_rowid_from :
    (i : ℕ) (es : List LogEntry) → max i (max_rowid (number (suc i) es)) ≡ i + length es
max_rowid_from i [] = omega arith
max_rowid_from i (e ∷ es) = omega (arith, max_rowid_from (suc i) es)

pub max_rowid-number : (es : List LogEntry) → max_rowid (number 1 es) ≡ length es
max_rowid-number es = omega (arith, max_rowid_from 0 es)

pub number-snoc :
    (i : ℕ) (es : List LogEntry) (e : LogEntry)
    → number i es ++ (i + length es, e) ∷ [] ≡ number i (es ++ e ∷ [])
number-snoc i [] e = let z : i + 0 ≡ i = omega arith in ap (λ k. (k, e) ∷ []) z
number-snoc i (x ∷ es) e =
    let z : i + suc (length es) ≡ suc i + length es = omega arith in
    ap (λ k. (i, x) ∷ (number (suc i) es ++ (k, e) ∷ [])) z
    ∙ ap (◌∷◌ (i, x)) (number-snoc (suc i) es e)

pub find_row-number :
    (n i k : ℕ) (es : List LogEntry) → i + k ≡ n → find_row n (number i es) ≡ get_elem? es k
find_row-number n i k [] h = refl
find_row-number n i zero (e ∷ es) h = ground arith
find_row-number n i (suc k) (e ∷ es) h = ground (arith, find_row-number n (suc i) k es)

pub rows_below_all : (n i : ℕ) (es : List LogEntry) → n ≤ i → rows_below n (number i es) ≡ []
rows_below_all n i [] h = refl
rows_below_all n i (e ∷ es) h = ground (arith, rows_below_all n (suc i) es)

pub rows_below-number :
    (n i k : ℕ) (es : List LogEntry) → i + k ≡ n → rows_below n (number i es) ≡ number i (take k es)
rows_below-number n i zero es h = rows_below_all n i es (omega arith)
rows_below-number n i (suc k) [] h = refl
rows_below-number n i (suc k) (e ∷ es) h = ground (arith, rows_below-number n (suc i) k es)

pub rows_between_all :
    (low high i : ℕ) (es : List LogEntry)
    → low ≤ i
    → i + length es ≤ suc high
    → rows_between low high (number i es) ≡ es
rows_between_all low high i [] h k = refl
rows_between_all low high i (e ∷ es) h k = ground (arith, rows_between_all low high (suc i) es)

pub rows_between-number :
    (low high i j : ℕ) (es : List LogEntry)
    → i + j ≡ low
    → i + length es ≤ suc high
    → rows_between low high (number i es) ≡ drop j es
rows_between-number low high i zero es h k = rows_between_all low high i es (omega arith) k
rows_between-number low high i (suc j) [] h k = refl
rows_between-number low high i (suc j) (e ∷ es) h k =
    ground (arith, rows_between-number low high (suc i) j es)
