-- ===== src/Ir/Ops.antt =====
-- include/vectortick/ir/opcode.hpp: enum class Opcode and its range tests.
use vector_tick.Common.{Bool, true, false}

pub data Opcode : Type 0 where
  nop jump branch return : Opcode
  const_i64 const_u64 const_u32 const_bool : Opcode
  load_column load_selection : Opcode
  add_i64 sub_i64 mul_i64 div_i64 mod_i64 : Opcode
  add_u64 sub_u64 mul_u64 div_u64 mod_u64 neg_i64 : Opcode
  eq_i64 ne_i64 lt_i64 le_i64 gt_i64 ge_i64 : Opcode
  eq_u64 ne_u64 lt_u64 le_u64 gt_u64 ge_u64 : Opcode
  and or not bit_and bit_or bit_xor bit_not shl shr select : Opcode
  extend_i32_to_i64 extend_u32_to_u64 trunc_i64_to_i32 : Opcode
  count sum_i64 sum_u64 min_i64 max_i64 min_u64 max_u64 : Opcode
  vector_load vector_filter vector_project batch_count batch_sum batch_min batch_max : Opcode

abbrev pub is_aggregate : Opcode → Bool
is_aggregate Opcode.count = true
is_aggregate Opcode.sum_i64 = true
is_aggregate Opcode.sum_u64 = true
is_aggregate Opcode.min_i64 = true
is_aggregate Opcode.max_i64 = true
is_aggregate Opcode.min_u64 = true
is_aggregate Opcode.max_u64 = true
is_aggregate _ = false
