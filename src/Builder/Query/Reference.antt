-- ===== src/Builder/Query/Reference.antt =====
-- The unsigned aggregates of a query, as functions of the values of its rows.
use vector_tick.Common.{
  All, ℕ, suc, ◌<◌, ◌^◌, ◌+◌, ◌%◌, List, [], ◌∷◌, some, ◌≡◌, refl, ◌∙◌, ap, arith, map, min, max,
  length,
}
use vector_tick.Event.{CanonicalEvent}
use vector_tick.Query.{Expression, QueryStmt, Name, Expressions, arg, to_lower}
use vector_tick.Query.Meaning.{evaluate}
use vector_tick.Query.Words.{IsLowerable, IsWords, IsWord, evaluate-IsWord}
use vector_tick.Ir.Ops.{Opcode}
use vector_tick.Interpreter.{Interpreter}
use vector_tick.Interpreter.Arithmetic.{Run, done, failed, undefined, ◌>>=◌}
use vector_tick.Interpreter.Aggregate.{
  Accumulator, initial, aggregate_value, add_row, aggregate_outcome, execute_aggregate,
}
use vector_tick.Builder.{infer_type}
use vector_tick.Builder.Correct.{nodes}
use vector_tick.Builder.Query.{agg_call, build_from_query}
use vector_tick.Builder.Query.Aggregate.{fold_rows, execute_aggregate-build_from_query}
use vector_tick.Builder.Query.Aggregate.Choice.{aggregate_opcode}

-- The values of the rows, up to the first that has none.
unfoldable pub values_of : Expression → List CanonicalEvent → Run (List ℕ)
unfolding evaluate
values_of e [] = done []
values_of e (event ∷ events) = do v ← evaluate e event; vs ← values_of e events; done (v ∷ vs)

unfoldable pub total : List ℕ → ℕ
total [] = 0
total (v ∷ vs) = v + total vs

unfoldable pub least_of : ℕ → List ℕ → ℕ
least_of m [] = m
least_of m (v ∷ vs) = least_of (min m v) vs

unfoldable pub greatest : List ℕ → ℕ
greatest [] = 0
greatest (v ∷ vs) = max v (greatest vs)

pub data Unsigned : Opcode → Type 0 where
  sum_u64 : Unsigned Opcode.sum_u64
  min_u64 : Unsigned Opcode.min_u64
  max_u64 : Unsigned Opcode.max_u64

-- The sum wraps; there is no least value of no rows, and the interpreter gives 0.
abbrev least : List ℕ → ℕ
least [] = 0
least (v ∷ vs) = least_of v vs

unfoldable pub reference : {op : Opcode} → Unsigned op → List ℕ → ℕ
unfolding total least_of greatest
reference Unsigned.sum_u64 vs = total vs % 2 ^ 64
reference Unsigned.min_u64 vs = least vs
reference Unsigned.max_u64 vs = greatest vs

-- `add_row` of an unsigned aggregate.
add : {op : Opcode} → Unsigned op → ℕ → Accumulator → Accumulator
add Unsigned.sum_u64 v a = record a {
  count = (a.count + 1) % 2 ^ 64;
  sum_u64 = (a.sum_u64 + v) % 2 ^ 64;
}
add Unsigned.min_u64 v a = record a { count = (a.count + 1) % 2 ^ 64; min_u64 = min a.min_u64 v }
add Unsigned.max_u64 v a = record a { count = (a.count + 1) % 2 ^ 64; max_u64 = max a.max_u64 v }

add_row-add :
    {op : Opcode} (u : Unsigned op) (v : ℕ) (a : Accumulator) → add_row op v a ≡ done (add u v a)
unfolding add
add_row-add Unsigned.sum_u64 v a = refl
add_row-add Unsigned.min_u64 v a = refl
add_row-add Unsigned.max_u64 v a = refl

-- The rows of a list, added one after another.
unfoldable pub add_all : (ℕ → Accumulator → Accumulator) → List ℕ → Accumulator → Accumulator
add_all add [] a = a
add_all add (v ∷ vs) a = add_all add vs (add v a)

bind_assoc :
    (m : Run (List ℕ)) (v : ℕ) (f : List ℕ → Accumulator)
    → (m >>= λ vs. done (f (v ∷ vs))) ≡ ((m >>= λ vs. done (v ∷ vs)) >>= λ vs. done (f vs))
bind_assoc (done vs) v f = refl
bind_assoc (failed e) v f = refl
bind_assoc undefined v f = refl

-- An aggregate whose rows cannot fail adds the values of its argument.
module _ (op : Opcode) (add : ℕ → Accumulator → Accumulator)
    (adds : (v : ℕ) (a : Accumulator) → add_row op v a ≡ done (add v a)) (e : Expression) where
  pub fold_rows-add_all :
      (events : List CanonicalEvent) (a : Accumulator)
      → fold_rows op e events a ≡ (values_of e events >>= λ vs. done (add_all add vs a))
  unfolding fold_rows values_of add_all
  fold_rows-add_all [] a = refl
  fold_rows-add_all (event ∷ events) a =
      row (evaluate e event) (λ v. fold_rows-add_all events (add v a))
    where
      row :
          (m : Run ℕ)
          → ((v : ℕ)
              → fold_rows op e events (add v a)
                ≡ (values_of e events >>= λ vs. done (add_all add vs (add v a))))
          → (m >>= λ v. add_row op v a >>= λ next. fold_rows op e events next) ≡ (
              (m >>= λ v. values_of e events >>= λ vs. done (v ∷ vs)) >>= λ vs.
              done (add_all add vs a))
      row (done v) rest =
          ap (λ m. m >>= λ next. fold_rows op e events next) (adds v a)
          ∙ rest v
          ∙ bind_assoc (values_of e events) v (λ vs. add_all add vs a)
      row (failed s) rest = refl
      row undefined rest = refl

-- What the values of rows satisfy: they are words, one for each row.
abbrev pub AreWords : ℕ → Run (List ℕ) → Type 0
AreWords n (done vs) = All (λ v. v < 2 ^ 64) vs × (length vs ≡ n)
AreWords n (failed e) = Unit
AreWords n undefined = Unit

module _ (e : Expression) (h : IsLowerable e) where
  pub values_of-AreWords :
      (events : List CanonicalEvent)
      → All IsWords events
      → AreWords (length events) (values_of e events)
  unfolding values_of
  values_of-AreWords [] w = (tt, refl)
  values_of-AreWords (event ∷ events) (w, ws) =
      row (evaluate e event) (values_of e events) (evaluate-IsWord event w e h)
        (values_of-AreWords events ws)
    where
      row :
          (m : Run ℕ) (rows : Run (List ℕ))
          → IsWord m
          → AreWords (length events) rows
          → AreWords (suc (length events)) (m >>= λ v. rows >>= λ vs. done (v ∷ vs))
      row (done v) (done vs) k (ks, n) = ((k, ks), omega (arith, n))
      row (done v) (failed s) k ks = tt
      row (done v) undefined k ks = tt
      row (failed s) rows k ks = tt
      row undefined rows k ks = tt

sum-total :
    (vs : List ℕ) (a : Accumulator)
    → a.sum_u64 < 2 ^ 64
    → (add_all (add Unsigned.sum_u64) vs a).sum_u64 ≡ (a.sum_u64 + total vs) % 2 ^ 64
unfolding add add_all total
sum-total [] a h = omega arith
sum-total (v ∷ vs) a h = omega (arith, sum-total vs (add Unsigned.sum_u64 v a) (omega arith))

count-length :
    {op : Opcode} (u : Unsigned op) (vs : List ℕ) (a : Accumulator)
    → a.count < 2 ^ 64
    → (add_all (add u) vs a).count ≡ (a.count + length vs) % 2 ^ 64
unfolding add add_all
count-length u [] a h = omega arith
count-length Unsigned.sum_u64 (v ∷ vs) a h =
    omega (arith, count-length Unsigned.sum_u64 vs (add Unsigned.sum_u64 v a) (omega arith))
count-length Unsigned.min_u64 (v ∷ vs) a h =
    omega (arith, count-length Unsigned.min_u64 vs (add Unsigned.min_u64 v a) (omega arith))
count-length Unsigned.max_u64 (v ∷ vs) a h =
    omega (arith, count-length Unsigned.max_u64 vs (add Unsigned.max_u64 v a) (omega arith))

min-least_of :
    (vs : List ℕ) (a : Accumulator)
    → (add_all (add Unsigned.min_u64) vs a).min_u64 ≡ least_of a.min_u64 vs
unfolding add add_all least_of
min-least_of [] a = refl
min-least_of (v ∷ vs) a = min-least_of vs (add Unsigned.min_u64 v a)

max-greatest :
    (vs : List ℕ) (a : Accumulator)
    → (add_all (add Unsigned.max_u64) vs a).max_u64 ≡ max a.max_u64 (greatest vs)
unfolding add add_all greatest
max-greatest [] a = omega arith
max-greatest (v ∷ vs) a = omega (arith, max-greatest vs (add Unsigned.max_u64 v a))

aggregate-reference :
    {op : Opcode} (u : Unsigned op) (vs : List ℕ)
    → All (λ v. v < 2 ^ 64) vs
    → length vs < 2 ^ 64
    → aggregate_value op (add_all (add u) vs initial) ≡ reference u vs
unfolding reference least_of add_all add
aggregate-reference Unsigned.sum_u64 vs h k = sum-total vs initial (omega arith) ∙ omega arith
aggregate-reference Unsigned.min_u64 [] h k = refl
aggregate-reference Unsigned.min_u64 (v ∷ vs) (h, hs) k =
    let counted = count-length Unsigned.min_u64 (v ∷ vs) initial (omega arith) in
    nonzero (add_all (add Unsigned.min_u64) (v ∷ vs) initial) (ground (arith, counted))
    ∙ min-least_of (v ∷ vs) initial
    ∙ ap (λ m. least_of m vs) (omega arith)
  where
    nonzero : (a : Accumulator) → 0 < a.count → aggregate_value Opcode.min_u64 a ≡ a.min_u64
    nonzero a p = ground arith
aggregate-reference Unsigned.max_u64 vs h k = max-greatest vs initial ∙ omega arith

aggregate_run :
    {op : Opcode} (u : Unsigned op) (n : ℕ) (s : Interpreter) (m : Run (List ℕ))
    → AreWords n m
    → n < 2 ^ 64
    → aggregate_outcome op s (m >>= λ vs. done (add_all (add u) vs initial))
      ≡ (s, some (m >>= λ vs. done (reference u vs)))
aggregate_run u n s (done vs) (h, k) l =
    ap (λ v. (s, some (done v))) (aggregate-reference u vs h (omega (arith, k)))
aggregate_run u n s (failed e) h l = refl
aggregate_run u n s undefined h l = refl

module _ (fuel : ℕ) (s : Interpreter) (stmt : QueryStmt) (name : Name) (e : Expression)
    (rest : Expressions) (call : agg_call stmt ≡ some (name, arg e rest)) (h : IsLowerable e)
    (k : nodes e + 3 < 2 ^ 32) where
  -- With the function of a query that asks for an unsigned sum, minimum or maximum of such an
  -- expression, execute_aggregate over fewer than 2 ^ 64 events of 64-bit columns gives the sum
  -- modulo 2 ^ 64, the least or the greatest of the values of the rows, 0 for no rows; where a row
  -- has no value, it is what the first such row gives.
  pub execute_aggregate-reference :
      {op : Opcode} (u : Unsigned op)
      → aggregate_opcode (map to_lower name) (infer_type e) ≡ some op
      → (events : List CanonicalEvent) → All IsWords events
      → length events < 2 ^ 64
      → execute_aggregate fuel s (build_from_query (some stmt)) events
        ≡ (s, some (values_of e events >>= λ vs. done (reference u vs)))
  execute_aggregate-reference {op} u asks events w l =
      execute_aggregate-build_from_query fuel s stmt name e rest op call asks h k events w
      ∙ ap (aggregate_outcome op s) (fold_rows-add_all op (add u) (add_row-add u) e events initial)
      ∙ aggregate_run u (length events) s (values_of e events) (values_of-AreWords e h events w) l
