-- ===== src/Builder/Query/Aggregate/Choice.antt =====
-- src/ir/builder.cpp: the aggregate that a name asks for.
use vector_tick.Common.{
  none≢some, ℕ, Bool, true, false, Option, none, some, ◌≡◌, refl, if◌then◌else◌,
}
use mathlib.Core.Path.{subst}
use mathlib.Core.Option.{some-injective}
use vector_tick.Query.{Name, codes, same_name}
use vector_tick.Ir.{ValueType, aggregate_op}
use vector_tick.Ir.Ops.{Opcode, is_aggregate}
use vector_tick.Builder.{lower_aggregate}
use vector_tick.Builder.Emit.{Builder, create, is_i64}

-- The opcode of an aggregate of one argument, by its name in lower case.
abbrev pub aggregate_opcode : Name → ValueType → Option Opcode
aggregate_opcode fname type =
    if same_name fname (codes "count")
    then none
    else (if same_name fname (codes "sum")
        then some (if is_i64 type then Opcode.sum_i64 else Opcode.sum_u64)
        else (if same_name fname (codes "min")
            then some (if is_i64 type then Opcode.min_i64 else Opcode.min_u64)
            else (if same_name fname (codes "max")
                then some (if is_i64 type then Opcode.max_i64 else Opcode.max_u64)
                else none)))

-- What is known of the opcode that a name asks for.
abbrev pub Chosen : Name → ValueType → Opcode → Type 0
Chosen fname type op =
    (is_aggregate op ≡ true)
    × (same_name fname (codes "count") ≡ false)
    × ((id : ℕ) (b : Builder)
        → lower_aggregate fname id type b ≡ create (λ r. aggregate_op op id r type) b)

chosen_here :
    (type : ValueType) (o op : Opcode) (lowered : ℕ → Builder → ℕ × Builder)
    → is_aggregate o ≡ true
    → ((id : ℕ) (b : Builder) → lowered id b ≡ create (λ r. aggregate_op o id r type) b)
    → some o ≡ some op
    → (is_aggregate op ≡ true)
      × (false ≡ false)
      × ((id : ℕ) (b : Builder) → lowered id b ≡ create (λ r. aggregate_op op id r type) b)
chosen_here type o op lowered is same e =
    subst
      (λ op.
        (is_aggregate op ≡ true)
        × (false ≡ false)
        × ((id : ℕ) (b : Builder) → lowered id b ≡ create (λ r. aggregate_op op id r type) b))
      (some-injective _ _ e) (is, refl, same)

choose :
    (c s m x i : Bool) (type : ValueType) (op : Opcode)
    → (if c
        then none
        else (if s
            then some (if i then Opcode.sum_i64 else Opcode.sum_u64)
            else (if m
                then some (if i then Opcode.min_i64 else Opcode.min_u64)
                else (if x then some (if i then Opcode.max_i64 else Opcode.max_u64) else none))))
      ≡ some op
    → (is_aggregate op ≡ true)
      × (c ≡ false)
      × ((id : ℕ) (b : Builder)
          → (if s
              then create
                  (λ r. aggregate_op (if i then Opcode.sum_i64 else Opcode.sum_u64) id r type)
                  b
              else (if m
                  then create
                      (λ r. aggregate_op (if i then Opcode.min_i64 else Opcode.min_u64) id r type)
                      b
                  else (if x
                      then create
                          (λ r.
                            aggregate_op (if i then Opcode.max_i64 else Opcode.max_u64) id r type)
                          b
                      else (0, b))))
            ≡ create (λ r. aggregate_op op id r type) b)
choose true s m x i type op e = absurd (none≢some op e)
choose false true m x true type op e = chosen_here type Opcode.sum_i64 op _ refl (λ id b. refl) e
choose false true m x false type op e = chosen_here type Opcode.sum_u64 op _ refl (λ id b. refl) e
choose false false true x true type op e =
    chosen_here type Opcode.min_i64 op _ refl (λ id b. refl) e
choose false false true x false type op e =
    chosen_here type Opcode.min_u64 op _ refl (λ id b. refl) e
choose false false false true true type op e =
    chosen_here type Opcode.max_i64 op _ refl (λ id b. refl) e
choose false false false true false type op e =
    chosen_here type Opcode.max_u64 op _ refl (λ id b. refl) e
choose false false false false i type op e = absurd (none≢some op e)

pub chosen :
    (fname : Name) (type : ValueType) (op : Opcode)
    → aggregate_opcode fname type ≡ some op
    → Chosen fname type op
chosen fname type op e =
    choose (same_name fname (codes "count")) (same_name fname (codes "sum"))
      (same_name fname (codes "min")) (same_name fname (codes "max")) (is_i64 type) type op e
