-- ===== src/Interpreter/Termination.antt =====
-- src/execution/reference_interpreter.cpp: the loop of `execute` over the blocks of a function.
use mathlib.Core.Option.{some-injective}
use vector_tick.Common.{
  none≢some, ℕ, zero, suc, ◌+◌, ◌-◌, ◌<◌, Option, none, some, List, [], ◌∷◌, get_elem?, length, All,
  ◌≡◌, refl, arith,
}
use mathlib.Core.Path.{subst}
use vector_tick.Event.{CanonicalEvent}
use vector_tick.Ir.{Instruction, BasicBlock, Function, opcode}
use vector_tick.Interpreter.{
  Interpreter, Values, Control, control, Exit, returned, goto, left, Outcome, target_of,
  true_block_of, false_block_of, branch_exit, continue, run_instruction, run_block, next_block,
  enter_block, execute_loop, execute, execute_instruction, parameter_values, get_val,
  count_instruction, operand,
}
use vector_tick.Interpreter.Arithmetic.{Run, done, failed, undefined}

-- An instruction of block `i` that leaves it goes to a later block.
abbrev Later : Control → ℕ → Instruction → Type 0
Later Control.jumping i instr = i < target_of instr
Later Control.branching i instr = (i < true_block_of instr) × (i < false_block_of instr)
Later _ i instr = Unit

abbrev pub IsForward : ℕ → Instruction → Type 0
IsForward i instr = Later (control (opcode instr)) i instr

-- The blocks from the `i`-th on, with jumps to later blocks only.
abbrev pub AreForward : ℕ → List BasicBlock → Type 0
AreForward i [] = Unit
AreForward i (block ∷ blocks) = All (IsForward i) block × AreForward (i + 1) blocks

-- Where an exit of block `i` leads.
abbrev LeadsOn : ℕ → Exit → Type 0
LeadsOn i (returned r) = Unit
LeadsOn i (goto block) = i < block
LeadsOn i left = Unit

branch_exit-LeadsOn :
    (i : ℕ) (instr : Instruction) (r : Run ℕ)
    → i < true_block_of instr
    → i < false_block_of instr
    → LeadsOn i (branch_exit r instr)
branch_exit-LeadsOn i instr (done v) h k = ground arith
branch_exit-LeadsOn i instr (failed s) h k = tt
branch_exit-LeadsOn i instr undefined h k = tt

continue-LeadsOn :
    (i : ℕ) (r : Run Values) (rest : Interpreter → Interpreter × Exit) (s : Interpreter)
    → ((s : Interpreter) → LeadsOn i (rest s).1)
    → LeadsOn i (continue r rest s).1
continue-LeadsOn i (done values) rest s h = h (count_instruction (record s { values = values }))
continue-LeadsOn i (failed e) rest s h = tt
continue-LeadsOn i undefined rest s h = tt

run_instruction-LeadsOn :
    (c : Control) (i : ℕ) (instr : Instruction) (event : CanonicalEvent)
    (rest : Interpreter → Interpreter × Exit) (s : Interpreter)
    → Later c i instr
    → ((s : Interpreter) → LeadsOn i (rest s).1)
    → LeadsOn i (run_instruction c instr event rest s).1
run_instruction-LeadsOn Control.returning i instr event rest s l h = tt
run_instruction-LeadsOn Control.jumping i instr event rest s l h = l
run_instruction-LeadsOn Control.branching i instr event rest s (a, b) h =
    branch_exit-LeadsOn i instr (get_val s.values (operand instr 0)) a b
run_instruction-LeadsOn Control.plain i instr event rest s l h =
    continue-LeadsOn i (execute_instruction instr event s.values) rest s h

run_block-LeadsOn :
    (i : ℕ) (block : BasicBlock) (event : CanonicalEvent) (s : Interpreter)
    → All (IsForward i) block
    → LeadsOn i (run_block block event s).1
unfolding run_block
run_block-LeadsOn i [] event s h = tt
run_block-LeadsOn i (instr ∷ rest) event s (h, hs) =
    run_instruction-LeadsOn (control (opcode instr)) i instr event (run_block rest event) s h
      (λ s. run_block-LeadsOn i rest event s hs)

-- The block at an index, of blocks that start at index `i`.
nth-IsForward :
    (i j : ℕ) (blocks : List BasicBlock) (block : BasicBlock)
    → AreForward i blocks
    → get_elem? blocks j ≡ some block
    → All (IsForward (i + j)) block × (j < length blocks)
nth-IsForward i j [] block h e = absurd (none≢some block e)
nth-IsForward i zero (b ∷ blocks) block (h, hs) e = (
  subst (All (IsForward (i + 0))) (some-injective _ _ e)
      (subst (λ (n : ℕ). All (IsForward n) b) (omega arith) h),
  omega arith,
)
nth-IsForward i (suc j) (b ∷ blocks) block (h, hs) e =
    let (found, l) = nth-IsForward (i + 1) j blocks block hs e in
    (subst (λ (n : ℕ). All (IsForward n) block) (omega arith) found, omega arith)

-- Two loops on enough fuel agree after a block.
next_block-agree :
    (i : ℕ) (loop loop' : Interpreter → ℕ → Outcome) (x : Interpreter × Exit)
    → LeadsOn i x.1
    → ((s : Interpreter) (t : ℕ) → i < t → loop s t ≡ loop' s t)
    → next_block loop x ≡ next_block loop' x
next_block-agree i loop loop' (s, returned r) l h = refl
next_block-agree i loop loop' (s, goto block) l h = h s block l
next_block-agree i loop loop' (s, left) l h = refl

-- An outcome with a result.
abbrev pub Returns : Outcome → Type 0
Returns (s, none) = ⊥
Returns (s, some r) = Unit

next_block-Returns :
    (i : ℕ) (loop : Interpreter → ℕ → Outcome) (x : Interpreter × Exit)
    → LeadsOn i x.1
    → ((s : Interpreter) (t : ℕ) → i < t → Returns (loop s t))
    → Returns (next_block loop x)
next_block-Returns i loop (s, returned r) l h = tt
next_block-Returns i loop (s, goto block) l h = h s block l
next_block-Returns i loop (s, left) l h = tt

module _ (function : Function) (forward : AreForward 0 function.blocks)
    (event : CanonicalEvent) where
  loop-Returns :
      (fuel current : ℕ) (s : Interpreter)
      → length function.blocks - current < fuel
      → Returns (execute_loop fuel function event s current)
  unfolding execute_loop
  loop-Returns zero current s l = absurd (omega arith)
  loop-Returns (suc fuel) current s l =
      at (get_elem? function.blocks current) refl (loop-Returns fuel)
    where
      at :
          (o : Option BasicBlock)
          → get_elem? function.blocks current ≡ o
          → ((t : ℕ) (s : Interpreter)
              → length function.blocks - t < fuel
              → Returns (execute_loop fuel function event s t))
          → Returns (
              enter_block
                (λ block. next_block (execute_loop fuel function event) (run_block block event s))
                s
                o)
      at none e h = tt
      at (some block) e h =
          let (ahead, inside) = nth-IsForward 0 current function.blocks block forward e in
          next_block-Returns current (execute_loop fuel function event) (run_block block event s)
            (run_block-LeadsOn current block event s
              (subst (λ (n : ℕ). All (IsForward n) block) (omega arith) ahead))
            (λ s t k. h t s (omega arith))

  loop-agree :
      (fuel fuel' current : ℕ) (s : Interpreter)
      → length function.blocks - current < fuel
      → length function.blocks - current < fuel'
      → execute_loop fuel function event s current ≡ execute_loop fuel' function event s current
  unfolding execute_loop
  loop-agree zero fuel' current s l l' = absurd (omega arith)
  loop-agree (suc fuel) zero current s l l' = absurd (omega arith)
  loop-agree (suc fuel) (suc fuel') current s l l' =
      at (get_elem? function.blocks current) refl (loop-agree fuel fuel')
    where
      at :
          (o : Option BasicBlock)
          → get_elem? function.blocks current ≡ o
          → ((t : ℕ) (s : Interpreter)
              → length function.blocks - t < fuel
              → length function.blocks - t < fuel'
              → execute_loop fuel function event s t ≡ execute_loop fuel' function event s t)
          → enter_block
              (λ block. next_block (execute_loop fuel function event) (run_block block event s))
              s
              o
            ≡ enter_block
                (λ block. next_block (execute_loop fuel' function event) (run_block block event s))
                s
                o
      at none e h = refl
      at (some block) e h =
          let (ahead, inside) = nth-IsForward 0 current function.blocks block forward e in
          next_block-agree current (execute_loop fuel function event)
            (execute_loop fuel' function event) (run_block block event s)
            (run_block-LeadsOn current block event s
              (subst (λ (n : ℕ). All (IsForward n) block) (omega arith) ahead))
            (λ s t k. h t s (omega arith) (omega arith))

  -- For a function whose jumps and branches lead to later blocks only, execute with more fuel than
  -- it has blocks returns a value, an error or something undefined, and the outcome is the same for
  -- all such fuel.
  pub execute-Returns :
      (fuel : ℕ) (s : Interpreter)
      → length function.blocks < fuel
      → Returns (execute fuel s (some function) (some event))
        × (execute fuel s (some function) (some event)
            ≡ execute (length function.blocks + 1) s (some function) (some event))
  unfolding execute
  execute-Returns fuel s l =
      let s' = record s { values = parameter_values function.parameters } in
      (
        loop-Returns fuel 0 s' (omega arith),
        loop-agree fuel (length function.blocks + 1) 0 s' (omega arith) (omega arith),
      )
