-- ===== src/Client/Async/Leaks.antt =====
-- Which calls the completion loop frees: those that succeed. A failed call is never freed.
use scalable_key_value_store.Prelude.{
  ℕ, ◌≡◌, refl, ◌∙◌, Bool, true, false, not, ◌&&◌, ◌||◌, List, [], ◌∷◌, ◌++◌, ◌==◌, arith, All,
  if◌then◌else◌, map, sym,
}
use mathlib.Core.List.{append-nil, append_assoc}
use scalable_key_value_store.Client.Cpp.{returns, ◌>>=◌}
use scalable_key_value_store.Client.Async.{
  AsyncClientCall, AsyncState, Completion, is_allocated, remove, complete, async_complete_rpc, Line,
  request_done_line, response_failure,
}

-- some completion of the list is of that call, with a status that is ok
unfoldable pub succeeded : ℕ → List Completion → Bool
succeeded a [] = false
succeeded a (e ∷ es) = (e.status_ok && (e.tag == a)) || succeeded a es

-- Every completion is of an allocated call, and no two are of the same call.
abbrev pub Delivers : List Completion → List AsyncClientCall → Type 0
Delivers [] calls = Unit {0}
Delivers (e ∷ es) calls =
    (is_allocated e.tag calls ≡ true) × All (λ f. (f.tag == e.tag) ≡ false) es × Delivers es calls

is_allocated-remove :
    (a b : ℕ) (calls : List AsyncClientCall)
    → is_allocated a (remove b calls) ≡ (is_allocated a calls && not (b == a))
unfolding is_allocated remove
is_allocated-remove a b [] = refl
is_allocated-remove a b (c ∷ calls) = ground (arith, is_allocated-remove a b calls)

Delivers-remove :
    (b : ℕ) (es : List Completion) (calls : List AsyncClientCall)
    → All (λ f. (f.tag == b) ≡ false) es
    → Delivers es calls
    → Delivers es (remove b calls)
Delivers-remove b [] calls fresh d = tt
Delivers-remove b (e ∷ es) calls fresh d =
    (ground (arith, is_allocated-remove e.tag b calls), d.1, Delivers-remove b es calls fresh.1 d.2)

-- the line that is logged for a completion
unfoldable pub line_of : Completion → Line
line_of e = if e.status_ok then request_done_line e.reply_type else response_failure

complete_lem :
    (e : Completion) (s : AsyncState)
    → is_allocated e.tag s.calls ≡ true
    → complete e s ≡ (
      returns tt,
      record s {
        calls = if e.status_ok then remove e.tag s.calls else s.calls;
        log = s.log ++ line_of e ∷ [];
      },
    )
unfolding complete line_of ◌>>=◌
complete_lem e s h = rw h (ground arith)

Delivers-rest :
    (b : Bool) (tag : ℕ) (es : List Completion) (calls : List AsyncClientCall)
    → All (λ f. (f.tag == tag) ≡ false) es
    → Delivers es calls
    → Delivers es (if b then remove tag calls else calls)
Delivers-rest true tag es calls fresh d = Delivers-remove tag es calls fresh d
Delivers-rest false tag es calls fresh d = d

is_allocated-rest :
    (b : Bool) (a tag : ℕ) (calls : List AsyncClientCall)
    → is_allocated a (if b then remove tag calls else calls)
      ≡ (is_allocated a calls && not (b && (tag == a)))
is_allocated-rest true a tag calls = is_allocated-remove a tag calls
is_allocated-rest false a tag calls = ground arith

-- what the loop does to a state
pub record Frees (es : List Completion) (s t : AsyncState) : Type 0 where
  pub freed : (a : ℕ) → is_allocated a t.calls ≡ (is_allocated a s.calls && not (succeeded a es))
  pub logged : t.log ≡ s.log ++ map line_of es

-- The loop handles every completion without touching freed memory. Of the calls that were
-- allocated it frees exactly those that completed with a status that is ok: a call that failed
-- stays allocated. It logs one line for each completion, in order.
pub async_complete_rpc-Frees :
    (es : List Completion) (s : AsyncState)
    → Delivers es s.calls
    → (t : AsyncState) × (async_complete_rpc es s ≡ (returns tt, t)) × Frees es s t
unfolding async_complete_rpc succeeded ◌>>=◌
async_complete_rpc-Frees [] s d =
    (s, refl, record { freed = λ a. ground arith; logged = sym (append-nil s.log) })
async_complete_rpc-Frees (e ∷ es) s d =
    let u : AsyncState = record s {
      calls = if e.status_ok then remove e.tag s.calls else s.calls;
      log = s.log ++ line_of e ∷ [];
    } in
    let (t, run, rest) =
      async_complete_rpc-Frees es u (Delivers-rest e.status_ok e.tag es s.calls d.1 d.2) in
    (
      t,
      rw (complete_lem e s d.0, async_complete_rpc) run,
      record {
        freed = λ a. ground (arith, rest.freed a, is_allocated-rest e.status_ok a e.tag s.calls);
        logged = rest.logged ∙ append_assoc s.log (line_of e ∷ []) (map line_of es);
      },
    )
