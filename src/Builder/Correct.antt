-- ===== src/Builder/Correct.antt =====
-- The code that Builder::lower_expression appends, run by the interpreter.
pub mod Blocks
use vector_tick.Common.{
  All, ℕ, zero, suc, ◌+◌, ◌-◌, ◌≤◌, ◌<◌, ◌^◌, ◌%◌, Bool, true, false, List, [], ◌∷◌, ◌++◌, Option,
  none, some, ◌≡◌, refl, sym, ◌∙◌, ap, ap₂, ◌||◌, arith,
}
use mathlib.Core.Path.{subst}
use mathlib.Core.List.{append_assoc, append-nil}
use vector_tick.Event.{CanonicalEvent}
use vector_tick.Query.{Expression, missing, literal, column_ref, binary_op, unary_op, function_call}
use vector_tick.Query.Meaning.{evaluate, is_signed, meaning, unary_meaning}
use vector_tick.Query.Words.{IsLowerable, IsWord, IsWords, evaluate-IsWord}
use vector_tick.Ir.{Instruction}
use vector_tick.Interpreter.{Values, load_column_value}
use vector_tick.Interpreter.Arithmetic.{Run, done, failed, undefined, ◌>>=◌}
use vector_tick.Builder.{lower_expression, lower_binary, operand_type, infer_type}
use vector_tick.Builder.Columns.{resolve_column_info, column_id_or_zero, column_type_or_u64}
use vector_tick.Query.Columns.{resolve_column_info-Describes}
use vector_tick.Builder.Types.{infer_type-is_signed}
use vector_tick.Builder.Emit.{Builder, create, row_index, create_load_column, is_i64}
use vector_tick.Builder.Operators.{
  IsPlain, Emits, HasWord, HaveWords, lower_binary-Emits, lower_unary-Emits, literal-Emits,
  column-Emits,
}
use vector_tick.Builder.Correct.Blocks.{Loop, Runs, Runs-then, Runs-one}

-- The instructions of an expression: one for each of its nodes.
unfoldable pub nodes : Expression → ℕ
nodes missing = 0
nodes (literal v) = 1
nodes (column_ref name) = 1
nodes (binary_op op l r) = nodes l + nodes r + 1
nodes (unary_op op e) = nodes e + 1
nodes (function_call name args) = 0

-- `p` is what a lowering leaves of the builder `b`: code that computes `m` into value `p.0`.
pub record Lowered (m : Run ℕ) (event : CanonicalEvent) (n : ℕ) (b : Builder) (p : ℕ × Builder)
    : Type 1 where
  pub code : List Instruction
  pub block : p.1.block ≡ b.block ++ code
  pub plain : All IsPlain code
  pub parameters : p.1.parameters ≡ b.parameters
  pub next : p.1.next_value_id ≡ b.next_value_id + n
  pub is_new : b.next_value_id ≤ p.0
  pub below : p.0 < p.1.next_value_id
  pub runs : (K : Loop event) (s : K.State) → Runs K m code p.0 b.next_value_id s

All-append : (xs ys : List Instruction) → All IsPlain xs → All IsPlain ys → All IsPlain (xs ++ ys)
All-append [] ys p q = q
All-append (x ∷ xs) ys (h, p) q = (h, All-append xs ys p q)

module _ {A : Type 0} {event : CanonicalEvent} {lowered : Builder → ℕ × Builder} {m : A → Run ℕ}
    {known : A → Values → Type 0} (E : Emits event lowered m known) where
  -- An instruction that reads nothing.
  emit :
      (b : Builder) (x : A)
      → b.next_value_id + 1 < 2 ^ 32
      → ((values : Values) → known x values)
      → Lowered (m x) event 1 b (lowered b)
  emit b x h k = subst (Lowered (m x) event 1 b) (sym (E.creates b)) (record {
    code = E.instr b.next_value_id ∷ [];
    block = refl;
    plain = (E.is_plain b.next_value_id, tt);
    parameters = refl;
    next = omega arith;
    is_new = omega arith;
    below = omega arith;
    runs = λ K s. Runs-one K E x b.next_value_id s (k (K.values s));
  })

-- A word that code left in a value.
has_word :
    (m : Run ℕ) (w : IsWord m) (id v : ℕ) (values : Values)
    → m ≡ done v
    → values id ≡ some v
    → HasWord id v values
has_word m w id v values e has = (subst IsWord e w, has)

-- An instruction that reads the value of the code before it.
emit_unary :
    {event : CanonicalEvent} {m : Run ℕ} {n : ℕ} {b : Builder} {p : ℕ × Builder}
    {lowered : Builder → ℕ × Builder} {f : ℕ → Run ℕ}
    → Lowered m event n b p
    → IsWord m
    → b.next_value_id + (n + 1) < 2 ^ 32
    → Emits event lowered f (HasWord p.0)
    → Lowered (m >>= f) event (n + 1) b (lowered p.1)
emit_unary {event = event} {m = m} {n = n} {b = b} {p = p} {f = f} L w h E =
    subst (Lowered (m >>= f) event (n + 1) b) (sym (E.creates p.1)) (record {
      code = L.code ++ E.instr p.1.next_value_id ∷ [];
      block =
          ap (λ c. c ++ E.instr p.1.next_value_id ∷ []) L.block
          ∙ append_assoc b.block L.code (E.instr p.1.next_value_id ∷ []);
      plain = All-append L.code _ L.plain (E.is_plain p.1.next_value_id, tt);
      parameters = L.parameters;
      next = omega (arith, L.next);
      is_new = omega (arith, L.next);
      below = omega (arith, L.next);
      runs = λ K s.
          Runs-then K f L.code (E.instr p.1.next_value_id ∷ []) p.0 p.1.next_value_id
            b.next_value_id p.1.next_value_id s (omega (arith, L.next)) m (L.runs K s)
            (λ v s' e has keeps.
              Runs-one K E v p.1.next_value_id s' (has_word m w p.0 v (K.values s') e has));
    })

-- Code after code.
emit_binary :
    {event : CanonicalEvent} {m m' : Run ℕ} {n n' : ℕ} {b : Builder} {p q : ℕ × Builder}
    {lowered : Builder → ℕ × Builder} {f : ℕ × ℕ → Run ℕ}
    → Lowered m event n b p
    → IsWord m
    → Lowered m' event n' p.1 q
    → IsWord m'
    → b.next_value_id + (n + n' + 1) < 2 ^ 32
    → Emits event lowered f (HaveWords p.0 q.0)
    → Lowered (m >>= λ a. m' >>= λ c. f (a, c)) event (n + n' + 1) b (lowered q.1)
emit_binary {event = event} {m = m} {m' = m'} {n = n} {n' = n'} {b = b} {p = p} {q = q} {f = f} L w
      R w' h E =
    let last = E.instr q.1.next_value_id ∷ [] in
    subst (Lowered (m >>= λ a. m' >>= λ c. f (a, c)) event (n + n' + 1) b) (sym (E.creates q.1))
      (record {
        code = L.code ++ (R.code ++ last);
        block =
            ap (λ c. c ++ last) (R.block ∙ ap (λ c. c ++ R.code) L.block)
            ∙ append_assoc (b.block ++ L.code) R.code last
            ∙ append_assoc b.block L.code (R.code ++ last);
        plain =
            All-append L.code _ L.plain
              (All-append R.code last R.plain (E.is_plain q.1.next_value_id, tt));
        parameters = R.parameters ∙ L.parameters;
        next = omega (arith, L.next, R.next);
        is_new = omega (arith, L.next, R.next);
        below = omega (arith, L.next, R.next);
        runs = λ K s.
            Runs-then K (λ a. m' >>= λ c. f (a, c)) L.code (R.code ++ last) p.0 q.1.next_value_id
              b.next_value_id p.1.next_value_id s (omega (arith, L.next)) m (L.runs K s)
              (λ a s₁ e has keeps.
                Runs-then K (λ c. f (a, c)) R.code last q.0 q.1.next_value_id p.1.next_value_id
                  q.1.next_value_id s₁ (omega (arith, R.next)) m' (R.runs K s₁)
                  (λ c s₂ e' has' keeps'.
                    Runs-one K E (a, c) q.1.next_value_id s₂
                      (
                        has_word m w p.0 a (K.values s₂) e (keeps' p.0 L.below ∙ has),
                        has_word m' w' q.0 c (K.values s₂) e' has',
                      )));
      })

module _ (event : CanonicalEvent) (w : IsWords event) where
  -- The code of an expression computes what the expression means.
  pub lower_expression-Lowered :
      (e : Expression)
      → IsLowerable e
      → (b : Builder) → b.next_value_id + nodes e < 2 ^ 32
      → Lowered (evaluate e event) event (nodes e) b (lower_expression e b)
  unfolding evaluate IsLowerable nodes lower_expression
  lower_expression-Lowered missing h b k = absurd h
  lower_expression-Lowered (literal v) h b k = emit (literal-Emits v) b tt k (λ values. tt)
  lower_expression-Lowered (column_ref name) h b k =
      emit
        (subst
          (λ v.
            Emits event
              (create_load_column (column_id_or_zero (resolve_column_info name)) (row_index b)
                (column_type_or_u64 (resolve_column_info name)))
              (λ (x : Unit). done v) (λ x values. Unit))
          ((resolve_column_info-Describes name).reads event)
          (column-Emits (column_id_or_zero (resolve_column_info name)) (row_index b)
            (column_type_or_u64 (resolve_column_info name))))
        b tt k (λ values. tt)
  lower_expression-Lowered (binary_op op l r) (o, hl, hr) b k =
      let L = lower_expression-Lowered l hl b (omega arith) in
      let R = lower_expression-Lowered r hr (lower_expression l b).1 (omega (arith, L.next)) in
      let lhs = (lower_expression l b).0 in
      let rhs = (lower_expression r (lower_expression l b).1).0 in
      emit_binary L (evaluate-IsWord event w l hl) R (evaluate-IsWord event w r hr) k (
        subst
          (λ s.
            Emits event (lower_binary op lhs rhs (operand_type (infer_type l) (infer_type r)))
              (λ (a, c). meaning op s a c) (HaveWords lhs rhs))
          (ap₂ ◌||◌ (infer_type-is_signed l hl) (infer_type-is_signed r hr))
          (lower_binary-Emits lhs rhs o (is_i64 (infer_type l) || is_i64 (infer_type r))))
  lower_expression-Lowered (unary_op op e) (o, h) b k =
      let L = lower_expression-Lowered e h b (omega arith) in
      emit_unary L (evaluate-IsWord event w e h) k (lower_unary-Emits (lower_expression e b).0 o)
  lower_expression-Lowered (function_call name args) h b k = absurd h
